-- ===== src/Repository/References.antt =====
-- The record references of the in-memory repository.
use agent_ui.Prelude.{
  String, Bool, ◌&&◌, not, List, Option, none, some, ◌==◌, nat_eq, string_eq, option_eq, find,
  select, if◌then◌else◌,
}
use agent_ui.Prelude.Dict.{values, get, put}
use agent_ui.Prelude.Json.{Fields}
use agent_ui.Repository.State.{Uuid, MemoryRecordRef, Repository}

abbrev pub is_record_of : Uuid → String → MemoryRecordRef → Bool
is_record_of space record_id item = item.space_id == space && item.provider_record_id == record_id

abbrev pub new_reference :
    Uuid → Uuid → String → String → Option Uuid → Option String → Fields → MemoryRecordRef
new_reference new_id space principal record_id proposal external provenance = record {
  id = new_id;
  space_id = space;
  principal_id = principal;
  provider_record_id = record_id;
  proposal_id = proposal;
  external_id = external;
  status = "active";
  provenance = provenance;
}

unfoldable pub add_record_ref :
    Repository
    → Uuid
    → Uuid
    → String
    → String
    → Option Uuid
    → Option String
    → Fields
    → Repository × MemoryRecordRef
add_record_ref r new_id space principal record_id proposal external provenance =
    elim (find (is_record_of space record_id) (values r.references)) [
      | some item ↦ (r, item)
      | none ↦
          let item = new_reference new_id space principal record_id proposal external provenance in
          (record r { references = put item.id item r.references }, item)
    ]

unfoldable pub get_record_ref : Repository → String → Uuid → Option MemoryRecordRef
get_record_ref r principal id = elim (get id r.references) [
  | none ↦ none
  | some item ↦ if item.principal_id == principal then some item else none
]

abbrev pub is_external_of : String → Uuid → String → MemoryRecordRef → Bool
is_external_of principal space external item =
    item.principal_id == principal && item.space_id == space && item.external_id == some external

unfoldable pub find_external_ref : Repository → String → Uuid → String → Option MemoryRecordRef
find_external_ref r principal space external =
    find (is_external_of principal space external) (values r.references)

unfoldable pub list_record_refs : Repository → String → Uuid → List MemoryRecordRef
list_record_refs r principal space =
    select
      (λ item.
        item.principal_id == principal && item.space_id == space && not (item.status == "purged"))
      (values r.references)

unfoldable pub set_record_status : Repository → String → Uuid → String → Repository
unfolding get_record_ref
set_record_status r principal id status = elim (get_record_ref r principal id) [
  | none ↦ r
  | some item ↦ record r { references = put item.id (record item { status = status }) r.references }
]

-- `self.proposals[proposal.id] = ...` without the content, for the proposal behind a reference
unfoldable pub erase_proposal : Repository → Option Uuid → Repository
erase_proposal r none = r
erase_proposal r (some id) = elim (get id r.proposals) [
  | none ↦ r
  | some proposal ↦ record r {
    proposals = put proposal.id (record proposal { content = none }) r.proposals;
  }
]

unfoldable pub purge_record_content : Repository → String → Uuid → Repository
unfolding get_record_ref erase_proposal set_record_status
purge_record_content r principal id = elim (get_record_ref r principal id) [
  | none ↦ set_record_status r principal id "purged"
  | some item ↦ set_record_status (erase_proposal r item.proposal_id) principal id "purged"
]
