-- ===== src/Tables.antt =====
-- The tables that the database says it has (`INFO FOR DB`), as src/db/reset.rs, src/db/export.rs and
-- the services read it.
use mercury_cortex_core.Common.{Bool, Option, none, some, is_some, if◌then◌else◌}
use mercury_cortex_core.Text.{Text, codes}
use mercury_cortex_core.Records.{Values}

pub data Tables (V : Type 0) : Type 0 where
  tables : V → Tables V
  no_tables_key unexpected_format : Tables V

module _ {V : Type 0} (values : Values V) where
  abbrev pub has_key : V → Text → Bool
  has_key v name = is_some (values.field name v)

  object_tables : Option V → Tables V
  object_tables none = no_tables_key
  object_tables (some t) = if values.is_object t then tables t else no_tables_key

  unfoldable pub tables_of : V → Tables V
  unfolding object_tables
  tables_of info =
      if values.is_object info
      then object_tables (values.field (codes "tables") info)
      else unexpected_format
