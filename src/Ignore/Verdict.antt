-- ===== src/Ignore/Verdict.antt =====
-- `is_ignored` of mcignore.rs: the last pattern that decides wins; what a plain pattern matches.
use mercury_cortex_core.Common.{
  ◌≡◌, refl, Bool, false, not, List, [], ◌∷◌, Option, none, some, arith, if◌then◌else◌,
}
use mercury_cortex_core.Text.{Text}
use mercury_cortex_core.Ignore.{
  McIgnore, McIgnorePattern, decides, ignored_from, is_ignored, normalise,
}

-- The last pattern of the list that decides about a path.
unfoldable pub last_deciding : Text → Bool → List McIgnorePattern → Option McIgnorePattern
last_deciding path is_dir [] = none
last_deciding path is_dir (p ∷ ps) = elim (last_deciding path is_dir ps) [
  | some q ↦ some q
  | none ↦ if decides path is_dir p then some p else none
]

abbrev pub verdict : Bool → Option McIgnorePattern → Bool
verdict otherwise none = otherwise
verdict otherwise (some p) = not p.is_negation

ignored_from-verdict :
    (path : Text) (is_dir ignored : Bool) (ps : List McIgnorePattern)
    → ignored_from path is_dir ignored ps ≡ verdict ignored (last_deciding path is_dir ps)
unfolding ignored_from last_deciding
ignored_from-verdict path is_dir ignored [] = refl
ignored_from-verdict path is_dir ignored (p ∷ ps) =
    let ih =
      ignored_from-verdict path is_dir
        (if decides path is_dir p then not p.is_negation else ignored) ps in
    ground (arith, ih)

-- A path is ignored exactly if the last pattern that decides about its normal form is no negation;
-- if none decides it is not.
pub is_ignored-last :
    (m : McIgnore) (path : Text) (is_dir : Bool)
    → is_ignored m path is_dir ≡ verdict false (last_deciding (normalise path) is_dir m.patterns)
unfolding is_ignored
is_ignored-last m path is_dir = ignored_from-verdict (normalise path) is_dir false m.patterns
