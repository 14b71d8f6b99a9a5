-- ===== src/Paths.antt =====
-- Lexical paths: `canonicalize_root_path` and `is_safe_relative_path` of src/util.rs and
-- `join_within_root` of src/engine/index/importer.rs, over the components that `std::path` gives on
-- Unix.
pub mod Parts
pub mod Canonical
pub mod Fixed
pub mod Within
use mercury_cortex_core.Common.{
  Bool, true, false, not, ◌&&◌, ◌||◌, List, [], ◌∷◌, ◌++◌, Option, none, some, ◌==◌, if◌then◌else◌,
  any, reverse,
}
use mercury_cortex_core.Text.{
  Text, codes, text_eq, starts_with, ends_with, is_empty, split, join, trim_end_char,
}

pub data Component : Type 0 where
  root_dir cur_dir parent_dir : Component
  normal : Text → Component

abbrev pub slash_text : Text
slash_text = codes "/"

-- `Path::is_absolute` on Unix.
unfoldable pub is_absolute : Text → Bool
unfolding starts_with
is_absolute path = starts_with path slash_text

-- Empty parts and `.` give no component.
unfoldable pub component_of : Text → Option Component
unfolding text_eq
component_of p =
    if is_empty p || text_eq p (codes ".")
    then none
    else if text_eq p (codes "..")
    then some parent_dir
    else some (normal p)

unfoldable pub part_components : List Text → List Component
part_components [] = []
part_components (p ∷ ps) = elim (component_of p) [
  | none ↦ part_components ps
  | some c ↦ c ∷ part_components ps
]

-- A leading `.` of a relative path is kept.
unfoldable pub relative_components : List Text → List Component
relative_components [] = []
relative_components (p ∷ ps) =
    if text_eq p (codes ".") then cur_dir ∷ part_components ps else part_components (p ∷ ps)

-- `Path::components`.
unfoldable pub components : Text → List Component
components path =
    if is_absolute path
    then root_dir ∷ part_components (split b'/' path)
    else relative_components (split b'/' path)

-- A `PathBuf` that is built by `push` and `pop` from components, its names innermost first.
pub record PathBuf : Type 0 where
  pub absolute : Bool
  pub names : List Text

abbrev pub empty : PathBuf
empty = record { absolute = false; names = [] }

-- `PathBuf::pop` leaves a root or an empty path alone.
abbrev pub pop : PathBuf → PathBuf
pop b = record b { names = elim b.names [ [] ↦ [] | _ ∷ ns ↦ ns ] }

-- The closure of the fold. Pushing the root replaces the path.
unfoldable pub resolve : PathBuf → Component → PathBuf
resolve acc cur_dir = acc
resolve acc parent_dir = pop acc
resolve acc root_dir = record { absolute = true; names = [] }
resolve acc (normal n) = record acc { names = n ∷ acc.names }

unfoldable pub resolve_all : PathBuf → List Component → PathBuf
resolve_all acc [] = acc
resolve_all acc (c ∷ cs) = resolve_all (resolve acc c) cs

unfoldable pub to_text : PathBuf → Text
to_text b = (if b.absolute then slash_text else []) ++ join slash_text (reverse b.names)

-- `while s.len() > 1 && s.ends_with('/') { s.pop(); }`
unfoldable pub strip_trailing : Text → Text
strip_trailing [] = []
strip_trailing (x ∷ xs) = x ∷ trim_end_char b'/' xs

unfoldable pub canonicalize_root_path : Text → Text
canonicalize_root_path path =
    let out = to_text (resolve_all empty (components path)) in
    let s = if not (is_absolute out) && is_absolute path then b'/' ∷ out else out in
    let stripped = strip_trailing s in if is_empty stripped then slash_text else stripped

abbrev pub is_parent : Component → Bool
is_parent parent_dir = true
is_parent _ = false

unfoldable pub is_safe_relative_path : Text → Bool
is_safe_relative_path relative =
    if is_empty relative || text_eq relative (codes ".")
    then false
    else if is_absolute relative || any is_parent (components relative)
    then false
    else true

-- `Path::join` with a relative path.
unfoldable pub join_path : Text → Text → Text
join_path root relative =
    if is_absolute relative
    then relative
    else if is_empty root || ends_with root slash_text
    then root ++ relative
    else root ++ (slash_text ++ relative)

unfoldable pub join_within_root : Text → Text → Option Text
join_within_root root relative =
    if not (is_safe_relative_path relative) then none else some (join_path root relative)
