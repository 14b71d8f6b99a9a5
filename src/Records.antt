-- ===== src/Records.antt =====
-- Record ids and their texts (src/util.rs). The values of the database library are seen through its
-- accessors; a numeric or UUID key is its printed form.
use mercury_cortex_core.Common.Integers.{ℤ}
use mercury_cortex_core.Common.{List, Option, none, some, ◌++◌, Bool}
use mercury_cortex_core.Text.{Text, codes}

pub data RecordIdKey : Type 0 where
  string_key number_key uuid_key other_key : Text → RecordIdKey

pub record RecordId : Type 0 where
  pub table : Text
  pub key : RecordIdKey

pub record Values (V : Type 0) : Type 0 where
  pub as_record_id : V → Option RecordId
  pub field : Text → V → Option V  -- `as_object` and then `get`
  pub is_object : V → Bool
  pub as_text : V → Option Text
  pub timestamp : V → Option ℤ  -- of a datetime
  pub of_text : Text → V
  pub of_record : RecordId → V
  pub of_list : List V → V

key_text : RecordIdKey → Option Text
key_text (string_key s) = some s
key_text (number_key n) = some n
key_text (uuid_key u) = some u
key_text (other_key _) = none

debug_text : RecordIdKey → Text
debug_text (string_key s) = s
debug_text (number_key n) = n
debug_text (uuid_key u) = u
debug_text (other_key d) = d

module _ {V : Type 0} (values : Values V) where
  unfoldable pub record_thing_to_string : V → Option Text
  unfolding key_text
  record_thing_to_string value = elim (values.as_record_id value) [
    | none ↦ none
    | some rid ↦ elim (key_text rid.key) [
      | none ↦ none
      | some key ↦ some (rid.table ++ (codes ":" ++ key))
    ]
  ]

  -- The id itself, or the `id` of an object.
  id_of : V → Option RecordId
  id_of value = elim (values.as_record_id value) [
    | some rid ↦ some rid
    | none ↦ elim (values.field (codes "id") value) [
      | none ↦ none
      | some id ↦ values.as_record_id id
    ]
  ]

  unfoldable pub record_id_to_string : V → Option Text
  unfolding id_of debug_text
  record_id_to_string value = elim (id_of value) [
    | none ↦ none
    | some rid ↦ some (rid.table ++ (codes ":" ++ debug_text rid.key))
  ]
