-- ===== src/Ignore.antt =====
-- The compiled pattern set of `.mcignore` (src/engine/index/mcignore.rs). Positions in a slice of
-- segments or characters are the suffixes that they begin, since they only move forward.
pub mod Wildcard
pub mod Verdict
pub mod Segments
pub mod Plain
use mercury_cortex_core.Common.{
  ℕ, zero, suc, ◌+◌, ◌*◌, Bool, true, false, not, ◌&&◌, ◌||◌, List, [], ◌∷◌, ◌++◌, Option, none,
  some, ◌==◌, if◌then◌else◌, length,
}
use mercury_cortex_core.Common.Results.{Result, ok, err, ◌>>=◌}
use mercury_cortex_core.Text.{
  Text, codes, text_eq, starts_with, ends_with, has_char, is_empty, trim, trim_end_char, split,
}

pub record McIgnorePattern : Type 0 where
  pub pattern : Text
  pub is_negation : Bool
  pub dir_only : Bool

pub record McIgnore : Type 0 where
  pub patterns : List McIgnorePattern

unfoldable pub default : McIgnore
default = record { patterns = [] }

abbrev pub slash : ℕ
slash = b'/'

abbrev pub star : ℕ
star = b'*'

-- A line of the file: nothing for a blank line or a comment.
abbrev drop_bang : Text → Text
drop_bang [] = []
drop_bang (c ∷ s) = if c == b'!' then s else c ∷ s

unfoldable pub parse_line : Text → Option McIgnorePattern
unfolding trim starts_with ends_with trim_end_char
parse_line line =
    let trimmed = trim line in
    let cleaned = drop_bang trimmed in
    let dir_only = ends_with cleaned (codes "/") in
    if is_empty trimmed || starts_with trimmed (codes "#")
    then none
    else some (record {
      pattern = if dir_only then trim_end_char slash cleaned else cleaned;
      is_negation = starts_with trimmed (codes "!");
      dir_only = dir_only;
    })

-- The loop of `load` over the lines as the reader gives them: an error ends it.
unfoldable pub parse_lines {ℓ} :
    {E : Type ℓ} → List (Result Text E) → Result (List McIgnorePattern) E
unfolding parse_line
parse_lines [] = ok []
parse_lines (err e ∷ rest) = err e
parse_lines (ok line ∷ rest) = do
  patterns ← parse_lines rest
  ok (elim (parse_line line) [ none ↦ patterns | some p ↦ p ∷ patterns ])

-- What opening the file gives.
pub data Opened {ℓ} (E : Type ℓ) : Type ℓ where
  lines_of : List (Result Text E) → Opened E
  not_found : Opened E
  failed : E → Opened E

unfoldable pub load {ℓ} : {E : Type ℓ} → Opened E → Result McIgnore E
unfolding parse_lines
load not_found = ok (record { patterns = [] })
load (failed e) = err e
load (lines_of ls) = do patterns ← parse_lines ls; ok (record { patterns = patterns })

-- `wildcard_match`: the value and the pattern that are left, and for the last star the value at it and
-- the pattern behind it. `none` is a loop that the fuel does not end.
abbrev pub Star : Type 0
Star = Option (Text × Text)

abbrev pub Round : Type 0
Round = Text → Text → Star → Option Bool

-- `if let Some((sv, sp)) = star`, and the final `return false`
retry : Star → Round → Option Bool
retry none next = some false
retry (some ([], sp)) next = some false
retry (some (_ ∷ sv, sp)) next = next sv sp (some (sv, sp))

-- The tests of the loop behind the one for a star: a character that matches, the end, the retry.
compare_one : Text → ℕ → Text → Star → Round → Option Bool
unfolding retry
compare_one [] c ps back next = retry back next
compare_one (v ∷ vs) c ps back next =
    if c == b'?' || c == v then next vs ps back else retry back next

end_of_pattern : Text → Star → Round → Option Bool
unfolding retry
end_of_pattern [] back next = some true
end_of_pattern (v ∷ vs) back next = retry back next

unfoldable pub wildcard_loop : ℕ → Round
unfolding compare_one end_of_pattern
wildcard_loop zero value pattern back = none
wildcard_loop (suc fuel) value [] back = end_of_pattern value back (wildcard_loop fuel)
wildcard_loop (suc fuel) value (c ∷ ps) back =
    let onward = wildcard_loop fuel value ps (some (value, ps)) in
    if c == star then onward else compare_one value c ps back (wildcard_loop fuel)

unfoldable pub wildcard_match : Text → Text → Option Bool
unfolding wildcard_loop
wildcard_match value pattern =
    wildcard_loop ((length value + 1) * (length pattern + 1)) value pattern none

-- `match_segments`, the pattern first.
unfoldable pub any_suffix {ℓ} : {A : Type ℓ} → (List A → Bool) → List A → Bool
any_suffix f [] = f []
any_suffix f (x ∷ xs) = f (x ∷ xs) || any_suffix f xs

-- The fuel that runs out counts as no match.
abbrev matched : Option Bool → Bool
matched none = false
matched (some b) = b

one_segment : Text → (List Text → Bool) → List Text → Bool
unfolding wildcard_match text_eq has_char
one_segment pat next [] = false
one_segment pat next (val ∷ rest) =
    if text_eq pat (codes "*") || text_eq pat val
    then next rest
    else if not (has_char pat star)
    then false
    else if matched (wildcard_match val pat)
    then next rest
    else false

unfoldable pub match_segments : List Text → List Text → Bool
unfolding any_suffix one_segment
match_segments [] path_segs = is_empty path_segs
match_segments (pat ∷ pats) path_segs =
    if text_eq pat (codes "**")
    then any_suffix (match_segments pats) path_segs
    else one_segment pat (match_segments pats) path_segs

unfoldable pub matches : Text → Text → Bool
unfolding match_segments split has_char starts_with ends_with
matches path pattern =
    if not (has_char pattern star)
    then text_eq path pattern
      || ends_with path (slash ∷ pattern)
      || starts_with path (pattern ++ slash ∷ [])
    else match_segments (split slash pattern) (split slash path)

-- `trim_start_matches("./")`
trim_dot_slash : Text → Text
trim_dot_slash [] = []
trim_dot_slash (c ∷ []) = c ∷ []
trim_dot_slash (c ∷ d ∷ s) = if c == b'.' && d == slash then trim_dot_slash s else c ∷ d ∷ s

unfoldable pub normalise : Text → Text
unfolding trim_dot_slash trim_end_char
normalise relative_path = trim_end_char slash (trim_dot_slash relative_path)

-- Whether the loop of `is_ignored` lets a pattern decide: not skipped, and a match.
unfoldable pub decides : Text → Bool → McIgnorePattern → Bool
decides path is_dir p =
    let is_exact = text_eq path p.pattern || ends_with path (slash ∷ p.pattern) in
    if p.dir_only && is_exact && not is_dir then false else matches path p.pattern

unfoldable pub ignored_from : Text → Bool → Bool → List McIgnorePattern → Bool
ignored_from path is_dir ignored [] = ignored
ignored_from path is_dir ignored (p ∷ ps) =
    ignored_from path is_dir (if decides path is_dir p then not p.is_negation else ignored) ps

unfoldable pub is_ignored : McIgnore → Text → Bool → Bool
is_ignored m relative_path is_dir = ignored_from (normalise relative_path) is_dir false m.patterns
