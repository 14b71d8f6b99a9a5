-- ===== src/Tests/Scaffolds.antt =====
-- The files of a project on small inputs.
use mercury_cortex_core.Common.{◌≡◌, refl, true, ◌++◌, none, some}
use mercury_cortex_core.Common.Results.{ok, err}
use mercury_cortex_core.Text.{Text, codes, starts_with}
use mercury_cortex_core.Scaffold.{
  newline, create_or_update_mcignore, write_config, instructions_md_content,
}
use mercury_cortex_core.Scaffold.Defaults.{Completed, create_or_update_mcignore-Completed}

abbrev short : Text
short = codes "target"

writes : (create_or_update_mcignore {E = Text} (ok tt) (ok tt) (some short)).1 ≡ ok tt
unfolding create_or_update_mcignore
writes = refl

create_or_update_mcignore-Completed_example :
    Completed (some short) (create_or_update_mcignore {E = Text} (ok tt) (ok tt) (some short)).0
    × ((create_or_update_mcignore {E = Text}
          (err (codes "no"))
          (ok tt)
          (create_or_update_mcignore {E = Text} (ok tt) (ok tt) (some short)).0).0
        ≡ (create_or_update_mcignore {E = Text} (ok tt) (ok tt) (some short)).0)
create_or_update_mcignore-Completed_example =
    create_or_update_mcignore-Completed {E = Text} (ok tt) (ok tt) (err (codes "no")) (ok tt)
      (some short) writes

config_is_written :
    write_config {E = Text} (λ c. ok (c.version ++ c.project_id)) (ok tt) (codes "p") none
    ≡ (some (codes "1p" ++ newline), ok tt)
unfolding write_config
config_is_written = refl

instructions_start : starts_with instructions_md_content (codes "# Mercury Cortex MCP") ≡ true
unfolding starts_with instructions_md_content
instructions_start = refl
