-- ===== src/Hub/Merge.antt =====
-- `merge_mapping` of ops/hubctl.py: an overlay applied to a document. A document is what YAML reads,
-- with texts for keys.
pub mod Lookup
pub mod Replaced
pub mod Documents
use agent_ui.Prelude.{String, Option, none, some}
use agent_ui.Prelude.Json.{
  Value, Fields, null, boolean, int, float, str, arr, obj, end, field, get_field, put_field,
  pop_field,
}

-- `result`, with `overlay` behind the fields of the loop that are left.
unfoldable pub merge_mapping : Fields → Fields → Fields
unfolding get_field put_field pop_field
merge_mapping result end = result
merge_mapping result (field key (obj overlay) rest) = elim (get_field key result) [
  | some (obj base) ↦ merge_mapping (put_field key (obj (merge_mapping base overlay)) result) rest
  | _ ↦ merge_mapping (put_field key (obj overlay) result) rest
]
merge_mapping result (field key null rest) = merge_mapping (pop_field key result) rest
merge_mapping result (field key value rest) = merge_mapping (put_field key value result) rest
