-- ===== src/Scaffold.antt =====
-- The files that are written into a project (src/service/scaffold.rs). A file is its contents, none if
-- it does not exist; a call of the file system may fail.
pub mod Pointer
pub mod Slug
pub mod Lines
pub mod Defaults
use mercury_cortex_core.Common.{
  ℕ, Bool, true, false, not, ◌&&◌, ◌||◌, List, [], ◌∷◌, ◌++◌, Option, none, some, ◌==◌,
  if◌then◌else◌, map, keep, any,
}
use mercury_cortex_core.Common.Results.{Result, ok, err}
use mercury_cortex_core.Text.{
  Text, codes, concat, text_eq, contains, starts_with, ends_with, is_empty, trim, lines, split,
  join,
}

abbrev pub agents_md_header : Text
agents_md_header = codes "## Mercury Cortex"

abbrev pub newline : Text
newline = 10 ∷ []

unfoldable pub agents_md_content : Text
unfolding concat
agents_md_content = concat (
    codes "## Mercury Cortex MCP"
    ∷ newline
    ∷ newline
    ∷ codes "This project uses a Mercury Cortex MCP server for cross-project code intelligence."
    ∷ newline
    ∷ codes "Read `.mercury-cortex/instructions.md` for available tools and workflows."
    ∷ newline
    ∷ [])

-- What a write leaves, and whether it failed.
unfoldable pub write :
    {E : Type 0} → Result (Unit {0}) E → Text → Option Text → Option Text × Result (Unit {0}) E
write (ok _) content file = (some content, ok tt)
write (err e) content file = (file, err e)

-- `if !content.ends_with('\n') { content.push('\n'); }`
unfoldable pub end_line : Text → Text
unfolding ends_with
end_line content = if ends_with content newline then content else content ++ newline

module _ {E : Type 0} (writing : Result (Unit {0}) E) where
  add_pointer : Result (Unit {0}) E → Text → Option Text × Result (Unit {0}) E
  unfolding contains write end_line agents_md_content
  add_pointer (err e) existing = (some existing, err e)
  add_pointer (ok _) existing =
      if contains existing agents_md_header
      then (some existing, ok tt)
      else write writing (end_line existing ++ (newline ++ agents_md_content)) (some existing)

  unfoldable pub create_or_update_agents_md :
      Result (Unit {0}) E → Option Text → Option Text × Result (Unit {0}) E
  unfolding add_pointer write agents_md_content
  create_or_update_agents_md reading none = write writing agents_md_content none
  create_or_update_agents_md reading (some existing) = add_pointer reading existing

abbrev pub mcignore_defaults : List Text
mcignore_defaults =
    codes "target"
    ∷ codes "build"
    ∷ codes "dist"
    ∷ codes "out"
    ∷ codes ".env"
    ∷ codes ".git"
    ∷ codes ".vscode"
    ∷ codes ".idea"
    ∷ codes ".dart_tool"
    ∷ codes "node_modules"
    ∷ codes ".pub-cache"
    ∷ codes "vendor"
    ∷ codes ".DS_Store"
    ∷ codes "Thumbs.db"
    ∷ codes "desktop.ini"
    ∷ codes "ehthumbs.db"
    ∷ codes "*.tmp"
    ∷ codes "*.log"
    ∷ codes ".vs"
    ∷ codes ".settings"
    ∷ codes "*.swp"
    ∷ codes ".mercury-cortex"
    ∷ []

-- The lines that count: trimmed, neither blank nor a comment.
unfoldable pub existing_lines : Text → List Text
unfolding trim lines starts_with
existing_lines existing =
    keep (λ l. not (is_empty l) && not (starts_with l (codes "#"))) (map trim (lines existing))

unfoldable pub missing_entries : Text → List Text
unfolding existing_lines text_eq
missing_entries existing =
    keep (λ d. not (any (λ l. text_eq l d) (existing_lines existing))) mcignore_defaults

-- Each entry on a line of its own.
unfoldable pub entry_lines : List Text → Text
entry_lines [] = []
entry_lines (e ∷ es) = e ++ (newline ++ entry_lines es)

module _ {E : Type 0} (reading writing : Result (Unit {0}) E) where
  unfoldable pub add_entries : List Text → Text → Option Text × Result (Unit {0}) E
  unfolding write end_line entry_lines
  add_entries [] existing = (some existing, ok tt)
  add_entries (e ∷ es) existing =
      write writing (end_line existing ++ entry_lines (e ∷ es)) (some existing)

  unfoldable pub read_entries : Result (Unit {0}) E → Text → Option Text × Result (Unit {0}) E
  unfolding add_entries missing_entries
  read_entries (err e) existing = (some existing, err e)
  read_entries (ok _) existing = add_entries (missing_entries existing) existing

  unfoldable pub create_or_update_mcignore : Option Text → Option Text × Result (Unit {0}) E
  unfolding read_entries write join
  create_or_update_mcignore none = write writing (join newline mcignore_defaults ++ newline) none
  create_or_update_mcignore (some existing) = read_entries reading existing

-- The documentation, line by line.
unfoldable pub instructions_md_content : Text
unfolding entry_lines
instructions_md_content = entry_lines (
    codes "# Mercury Cortex MCP"
    ∷ codes ""
    ∷ codes "This project uses a Mercury Cortex MCP server for cross-project"
    ∷ codes "code intelligence and project initialization."
    ∷ codes ""
    ∷ codes "The MCP server exposes all available tools and prompts dynamically"
    ∷ codes "via `tools/list` and `prompts/list`."
    ∷ codes ""
    ∷ codes "## When to use each workflow"
    ∷ codes ""
    ∷ codes "Two workflows are available through `prompts/get`. Pick the one that"
    ∷ codes "matches what you are doing with this project."
    ∷ codes ""
    ∷ codes "### `mercury-cortex:dev` — ongoing development"
    ∷ codes ""
    ∷ codes "Use for day-to-day AI-assisted development in this project:"
    ∷ codes "implementing features, fixing bugs, refactoring, and searching the"
    ∷ codes "indexed codebase."
    ∷ codes ""
    ∷ codes "### `mercury-cortex:init` — project initialization"
    ∷ codes ""
    ∷ codes "Use to initialize this project with Mercury Cortex: analyze its"
    ∷ codes "language and framework, refine `.mcignore`, generate metadata for"
    ∷ codes "the source files, and import it via `metadata/import`."
    ∷ codes ""
    ∷ codes "If the user types **`mercury-cortex:init`** in chat, treat it as a"
    ∷ codes "workflow trigger — call `prompts/get` with `name:"
    ∷ codes "\"mercury-cortex:init\"` to start the init workflow. It is not a"
    ∷ codes "shell command."
    ∷ codes ""
    ∷ codes "## How to run a workflow"
    ∷ codes ""
    ∷ codes "1. Call `prompts/get` with the matching `name` to start the workflow."
    ∷ codes "2. Call `workflow/session` with `mode: \"init\"` or `mode: \"dev\"`"
    ∷ codes "   to get the ordered step list."
    ∷ codes "3. For each step, call `workflow/step` with the same `mode` and the"
    ∷ codes "   step number, then follow the returned instructions."
    ∷ codes "4. Complete each step in order. If a step fails, stop and report the"
    ∷ codes "   error to the user — do not skip ahead."
    ∷ [])

-- `create_or_update_instructions_md`
unfoldable pub create_or_update_instructions_md :
    {E : Type 0} → Result (Unit {0}) E → Option Text → Option Text × Result (Unit {0}) E
unfolding write instructions_md_content
create_or_update_instructions_md writing file = write writing instructions_md_content file

pub record Config : Type 0 where
  pub version : Text
  pub project_id : Text

-- `write_config`; `to_string_pretty` is the JSON library's.
unfoldable pub write_config :
    {E : Type 0}
    → (Config → Result Text E)
    → Result (Unit {0}) E
    → Text
    → Option Text
    → Option Text × Result (Unit {0}) E
unfolding write
write_config to_string_pretty writing project_id file =
    elim (to_string_pretty (record { version = codes "1"; project_id = project_id })) [
      | err e ↦ (file, err e)
      | ok content ↦ write writing (content ++ newline) file
    ]

-- `read_config_project_id`; `parse` is the JSON library's, which gives the field of the config.
unfoldable pub read_config_project_id :
    {E : Type 0}
    → (Text → Result (Option Text) E)
    → Result (Unit {0}) E
    → Option Text
    → Result (Option Text) E
read_config_project_id parse reading none = ok none
read_config_project_id parse (err e) (some content) = err e
read_config_project_id parse (ok _) (some content) = elim (parse content) [
  | ok project_id ↦ ok project_id
  | err _ ↦ ok none
]

-- `slugify`; the case and the class of a character are the standard library's tables.
module _ (to_lowercase : Text → Text) (is_alphanumeric : ℕ → Bool) where
  unfoldable pub slug_char : ℕ → ℕ
  slug_char c = if is_alphanumeric c || c == b'-' then c else b'-'

  unfoldable pub slugify : Text → Text
  unfolding slug_char split join
  slugify input =
      join (codes "-")
        (keep (λ s. not (is_empty s)) (split b'-' (map slug_char (to_lowercase input))))
