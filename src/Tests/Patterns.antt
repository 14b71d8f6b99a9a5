-- ===== src/Tests/Patterns.antt =====
-- The ignore patterns of src/engine/index/mcignore.rs.
use mercury_cortex_core.Common.{◌≡◌, refl, ◌↔◌, true, false, ◌||◌, [], ◌∷◌, some}
use mercury_cortex_core.Text.{codes, split, text_eq}
use mercury_cortex_core.Ignore.{
  McIgnore, McIgnorePattern, slash, wildcard_match, match_segments, matches, normalise, decides,
  ignored_from, is_ignored, parse_line,
}
use mercury_cortex_core.Ignore.Wildcard.{wild, wildcard_match-wild}
use mercury_cortex_core.Ignore.Segments.{Glob, match_segments_iff}
use mercury_cortex_core.Ignore.Verdict.{verdict, last_deciding, is_ignored-last}
use mercury_cortex_core.Ignore.Plain.{first_segment, last_segment, matches-ends}

program : Unit {0}
unfolding split text_eq wildcard_match match_segments matches normalise decides ignored_from
    is_ignored parse_line
program = tt

backtracks : wildcard_match (codes "a.tt.txt") (codes "*.t?t") ≡ some true
unfolding program
backtracks = refl

abbrev logs : McIgnorePattern
logs = record { pattern = codes "*.log"; is_negation = false; dir_only = false }

abbrev keep_log : McIgnorePattern
keep_log = record { pattern = codes "keep.log"; is_negation = true; dir_only = false }

abbrev rules : McIgnore
rules = record { patterns = logs ∷ keep_log ∷ [] }

parses :
    parse_line (codes "  !build//  ")
    ≡ some (record { pattern = codes "build"; is_negation = true; dir_only = true })
unfolding program
parses = refl

ignores_a_log : is_ignored rules (codes "./debug.log") false ≡ true
unfolding program
ignores_a_log = refl

includes_again : is_ignored rules (codes "keep.log") false ≡ false
unfolding program
includes_again = refl

-- A star does not cross a slash, and no directory is implied before it.
misses_a_nested_log : is_ignored rules (codes "logs/debug.log") false ≡ false
unfolding program
misses_a_nested_log = refl

-- What lies below a directory further down is not ignored.
misses_a_nested_directory : matches (codes "app/node_modules/x.js") (codes "node_modules") ≡ false
unfolding program
misses_a_nested_directory = refl

-- A pattern for directories only, with a star, takes a plain file too.
takes_a_file :
    is_ignored
      (record {
        patterns = record { pattern = codes "foo*"; is_negation = false; dir_only = true } ∷ [];
      })
      (codes "foobar")
      false
    ≡ true
unfolding program
takes_a_file = refl

wildcard_match-wild_example :
    wildcard_match (codes "abab") (codes "*ab") ≡ some (wild (codes "*ab") (codes "abab"))
wildcard_match-wild_example = wildcard_match-wild (codes "abab") (codes "*ab")

match_segments_iff_example :
    (match_segments (codes "**" ∷ codes "*.rs" ∷ []) (codes "src" ∷ codes "a.rs" ∷ []) ≡ true)
    ↔ Glob (codes "**" ∷ codes "*.rs" ∷ []) (codes "src" ∷ codes "a.rs" ∷ [])
match_segments_iff_example =
    match_segments_iff (codes "**" ∷ codes "*.rs" ∷ []) (codes "src" ∷ codes "a.rs" ∷ [])

last_pattern_decides :
    is_ignored rules (codes "keep.log") false
    ≡ verdict false (last_deciding (normalise (codes "keep.log")) false rules.patterns)
last_pattern_decides = is_ignored-last rules (codes "keep.log") false

matches-ends_example : matches (codes "app/node_modules/x.js") (codes "node_modules") ≡ (
    text_eq (first_segment (split slash (codes "app/node_modules/x.js"))) (codes "node_modules")
    || text_eq (last_segment (split slash (codes "app/node_modules/x.js"))) (codes "node_modules"))
unfolding program
matches-ends_example = matches-ends (codes "app/node_modules/x.js") (codes "node_modules") refl refl
