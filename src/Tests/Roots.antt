-- ===== src/Tests/Roots.antt =====
-- The lexical paths of src/util.rs and src/engine/index/importer.rs.
use mercury_cortex_core.Common.{◌≡◌, refl, some, none}
use mercury_cortex_core.Text.{codes, split, join, text_eq, starts_with, ends_with, trim_end_char}
use mercury_cortex_core.Paths.{
  is_absolute, components, part_components, relative_components, component_of, resolve, resolve_all,
  to_text, strip_trailing, canonicalize_root_path, is_safe_relative_path, join_path,
  join_within_root,
}
use mercury_cortex_core.Paths.Fixed.{canonicalize_idem}
use mercury_cortex_core.Paths.Within.{Inside, join_within_root-Inside}

program : Unit {0}
unfolding split join text_eq starts_with ends_with trim_end_char is_absolute components
    part_components relative_components component_of resolve resolve_all to_text strip_trailing
    canonicalize_root_path is_safe_relative_path join_path join_within_root
program = tt

collapses : canonicalize_root_path (codes "/a//b/./c/../d/") ≡ codes "/a/b/d"
unfolding program
collapses = refl

empty_is_root : canonicalize_root_path (codes "foo/..") ≡ codes "/"
unfolding program
empty_is_root = refl

rejects_the_parent : join_within_root (codes "/repo") (codes "src/../../x") ≡ none
unfolding program
rejects_the_parent = refl

accepts : join_within_root (codes "/repo") (codes "./src/a.rs") ≡ some (codes "/repo/./src/a.rs")
unfolding program
accepts = refl

canonicalize_idem_example :
    canonicalize_root_path (canonicalize_root_path (codes "../a/./b//"))
    ≡ canonicalize_root_path (codes "../a/./b//")
canonicalize_idem_example = canonicalize_idem (codes "../a/./b//")

join_within_root-Inside_example : Inside (codes "/repo") (codes "/repo/./src/a.rs")
join_within_root-Inside_example =
    join_within_root-Inside (codes "/repo") (codes "./src/a.rs") (codes "/repo/./src/a.rs") accepts
