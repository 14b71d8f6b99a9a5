-- ===== src/Tests/UniqueRoots.antt =====
-- The migration of unique root paths on three projects: two at one path, and one at the root of the
-- file system.
use mercury_cortex_core.Common.Integers.{pos}
use mercury_cortex_core.Common.{
  ℕ, ◌≡◌, refl, true, List, [], ◌∷◌, Option, none, some, if◌then◌else◌,
}
use mercury_cortex_core.Common.Results.{ok}
use mercury_cortex_core.Text.{Text, codes, text_eq, starts_with}
use mercury_cortex_core.Records.{Values}
use mercury_cortex_core.Project.{Database}
use mercury_cortex_core.Migration.UniqueRoots.{Groups, run}
use mercury_cortex_core.Migration.Distinct.{Distinct}
use mercury_cortex_core.Migration.Spared.{Spared}
use mercury_cortex_core.Migration.Deletions.{deletes, deletions}

data Cell : Type 0 where
  row : Text → Text → ℕ → Cell
  word : Text → Cell
  time : ℕ → Cell
  other : Cell

column : Text → Cell → Option Cell
column name (row id path updated) =
    if text_eq name (codes "id")
    then some (word id)
    else if text_eq name (codes "root_path")
    then some (word path)
    else some (time updated)
column name (word w) = none
column name (time n) = none
column name other = none

abbrev values : Values Cell
values = record {
  as_record_id = λ c. none;
  field = column;
  is_object = λ c. true;
  as_text = λ c. elim c [ row i p u ↦ none | word w ↦ some w | time n ↦ none | other ↦ none ];
  timestamp =
      λ c. elim c [ row i p u ↦ none | word w ↦ none | time n ↦ some (pos n) | other ↦ none ];
  of_text = word;
  of_record = λ r. other;
  of_list = λ cs. other;
}

abbrev listed : List Cell
listed =
    row (codes "a") (codes "/p/") 1
    ∷ row (codes "b") (codes "/p") 2
    ∷ row (codes "c") (codes "/") 3
    ∷ []

abbrev db : Database Cell
db = record {
  values = values;
  reply = λ sent s. ok (if starts_with s.sql (codes "SELECT") then listed else []);
}

abbrev in_order : Groups Cell → Groups Cell
in_order gs = gs

-- The older project at the common path and the one at the root are deleted.
two_are_deleted :
    deletes (run db in_order []).0 ≡ deletions db (word (codes "a") ∷ word (codes "c") ∷ []) []
unfolding run starts_with column mercury_cortex_core.Paths.canonicalize_root_path
    mercury_cortex_core.Paths.strip_trailing mercury_cortex_core.Paths.is_absolute
    mercury_cortex_core.Paths.to_text mercury_cortex_core.Paths.resolve_all
    mercury_cortex_core.Paths.components mercury_cortex_core.Paths.part_components
    mercury_cortex_core.Text.split mercury_cortex_core.Paths.component_of
    mercury_cortex_core.Paths.resolve mercury_cortex_core.Text.trim_end_char
    mercury_cortex_core.Text.join
two_are_deleted = refl
