-- ===== src/Service/Records.antt =====
-- Approved records of memory_service.py: adding, listing, correcting, forgetting, purging and
-- export.
use agent_ui.Prelude.{
  case_option, ℕ, String, Bool, true, false, not, List, [], ◌∷◌, Option, none, some, Exec, pure,
  throw, lift, ◌>>=◌, ◌>>◌, ensure, if◌then◌else◌, ◌==◌, string_eq, find,
}
use agent_ui.Prelude.Dict.{Dict, get, put}
use agent_ui.Prelude.Text.{is_empty}
use agent_ui.Prelude.Json.{Fields, Float, str, boolean, end, field}
use agent_ui.Secrets.{contains_probable_secret}
use agent_ui.Provider.{
  Error, access_error, conflict_error, provider_error, MemoryScope, ProviderRecord,
}
use agent_ui.Repository.State.{Uuid, Time, MemorySpace, MemoryRecordRef}
use agent_ui.Repository.References
use agent_ui.Service.World.{MemoryService, World, reading, writing, drawing, provided, audit}
use agent_ui.Service.Access.{scope_for, personal_space, require_space}

abbrev pub secret_message : String
secret_message = "memory content appears to contain a credential or secret"

-- `source or "manual"`
abbrev pub source_or : String → Option String → String
source_or d none = d
source_or d (some s) = if is_empty s then d else s

abbrev pub given : Option String → Bool
given none = false
given (some s) = not (is_empty s)

-- `external_id` where it is truthy
abbrev pub nonempty : Option String → Option String
nonempty none = none
nonempty (some s) = if is_empty s then none else some s

-- What `records` returns for a record.
pub record RecordView : Type 0 where
  pub id : Uuid
  pub provider_record_id : String
  pub space_id : Uuid
  pub content : String
  pub source : Option String
  pub importance : Float
  pub metadata : Fields
  pub status : String
  pub created_at : Option Time
  pub updated_at : Option Time

module _ (s : MemoryService) where
  abbrev pub Method : Type 0 → Type 0
  Method A = Exec (World s.provider.State) Error A

  abbrev pub is_secret : String → Bool
  is_secret = contains_probable_secret s.host.is_word

  -- The known record of an external id, if the reference and the provider both still have it.
  unfoldable pub known_record :
      String → MemorySpace → Option String → Method (Option (ProviderRecord × MemoryRecordRef))
  unfolding scope_for
  known_record principal target none = pure none
  known_record principal target (some external) = do
    existing ← reading (λ r. References.find_external_ref r principal target.id external)
    case_option existing (pure none) (λ reference. do
      scope ← lift (scope_for s principal target none)
      records ← provided (s.provider.list_records scope true)
      case_option (find (λ item. item.id == reference.provider_record_id) records) (pure none)
          (λ record_found. pure (some (record_found, reference))))

  -- The writing part of `add_approved`.
  unfoldable pub store_record :
      String
      → MemorySpace
      → String
      → Option String
      → Fields
      → Float
      → Option String
      → Method (ProviderRecord × MemoryRecordRef)
  unfolding scope_for audit
  store_record principal target content source metadata importance external = do
    scope ← lift (scope_for s principal target none)
    ingested ← provided (s.provider.ingest scope content source metadata importance external)
    reference ← drawing (λ id r.
        References.add_record_ref r id target.id principal ingested.id none external
          (field "source" (str (source_or "manual" source)) end))
    audit s.host principal "record.create" "record" (s.host.uuid_text reference.id)
        (field "source_provided" (boolean (given source)) end)
    pure (ingested, reference)

  abbrev pub or_personal : String → Option MemorySpace → Method MemorySpace
  or_personal principal none = personal_space s principal
  or_personal principal (some space) = pure space

  -- content, source, metadata, importance, external id, space
  unfoldable pub add_approved :
      String
      → String
      → Option String
      → Fields
      → Float
      → Option String
      → Option MemorySpace
      → Method (ProviderRecord × MemoryRecordRef)
  unfolding known_record store_record personal_space
  add_approved principal content source metadata importance external space = do
    ensure (not (is_secret content)) (conflict_error secret_message)
    target ← or_personal principal space
    known ← known_record principal target (nonempty external)
    case_option known (store_record principal target content source metadata importance external)
        (λ pair. pure pair)

  unfoldable pub manual_search : String → String → ℕ → Method (List ProviderRecord)
  unfolding scope_for personal_space
  manual_search principal query limit = do
    space ← personal_space s principal
    scope ← lift (scope_for s principal space none)
    provided (s.provider.context_load scope query limit)

  -- `refs = {item.provider_record_id: item ...}`, from `refs`
  unfoldable pub by_record :
      Dict String MemoryRecordRef → List MemoryRecordRef → Dict String MemoryRecordRef
  by_record refs [] = refs
  by_record refs (item ∷ items) = by_record (put item.provider_record_id item refs) items

  abbrev record_view : MemorySpace → ProviderRecord → MemoryRecordRef → RecordView
  record_view space item reference = record {
    id = reference.id;
    provider_record_id = item.id;
    space_id = space.id;
    content = item.content;
    source = item.source;
    importance = item.importance;
    metadata = item.metadata;
    status = if item.forgotten then "forgotten" else reference.status;
    created_at = item.created_at;
    updated_at = item.updated_at;
  }

  -- The loop of `records`: a record of the provider without a reference gets one.
  unfoldable pub view_loop :
      String
      → MemorySpace
      → Dict String MemoryRecordRef
      → List ProviderRecord
      → Method (List RecordView)
  view_loop principal space refs [] = pure []
  view_loop principal space refs (item ∷ items) = do
    reference ←
        case_option (get item.id refs)
          (drawing (λ id r.
            References.add_record_ref r id space.id principal item.id none none
              (field "source" (str "legacy-provider-record") end)))
          (λ reference. pure reference)
    later ← view_loop principal space refs items
    pure (record_view space item reference ∷ later)

  unfoldable pub records : String → Method (List RecordView)
  unfolding scope_for personal_space view_loop by_record
  records principal = do
    space ← personal_space s principal
    scope ← lift (scope_for s principal space none)
    items ← provided (s.provider.list_records scope true)
    refs ← reading (λ r. References.list_record_refs r principal space.id)
    view_loop principal space (by_record [] refs) items

  -- `_record_target`
  unfoldable pub record_target : String → Uuid → Method (MemoryRecordRef × MemoryScope)
  unfolding scope_for require_space
  record_target principal id = do
    found ← reading (λ r. References.get_record_ref r principal id)
    case_option found (throw (access_error "memory record was not found")) (λ reference. do
      space ← require_space s principal reference.space_id
      scope ← lift (scope_for s principal space none)
      pure (reference, scope))

  abbrev reason_given : String → Fields
  reason_given reason = field "reason_provided" (boolean (not (is_empty reason))) end

  abbrev set_status : String → Uuid → String → Method Unit
  set_status principal id status =
      writing (λ r. (References.set_record_status r principal id status, tt))

  unfoldable pub correct_record : String → Uuid → String → String → Method (Uuid × String)
  unfolding record_target audit
  correct_record principal id content reason = do
    ensure (not (is_secret content)) (conflict_error secret_message)
    target ← record_target principal id
    corrected ← provided (
        s.provider.correct target.1 target.0.provider_record_id content
          (if is_empty reason then "correction" else "user-correction"))
    set_status principal target.0.id "active"
    audit s.host principal "record.correct" "record" (s.host.uuid_text target.0.id)
        (reason_given reason)
    pure (target.0.id, corrected.content)

  unfoldable pub forget_record : String → Uuid → String → Method Uuid
  unfolding record_target audit
  forget_record principal id reason = do
    target ← record_target principal id
    done ← provided (
        s.provider.forget target.1 target.0.provider_record_id
          (if is_empty reason then "forget-request" else "user-request"))
    ensure done (provider_error "provider did not forget the record")
    set_status principal target.0.id "forgotten"
    audit s.host principal "record.forget" "record" (s.host.uuid_text target.0.id)
        (reason_given reason)
    pure target.0.id

  unfoldable pub purge_record : String → Uuid → String → Method Uuid
  unfolding record_target audit
  purge_record principal id reason = do
    target ← record_target principal id
    done ← provided (
        s.provider.purge target.1 target.0.provider_record_id
          (if is_empty reason then "hard-purge-request" else "user-hard-purge"))
    ensure done (provider_error "provider did not purge the record")
    writing (λ r. (References.purge_record_content r principal target.0.id, tt))
    audit s.host principal "record.purge" "record" (s.host.uuid_text target.0.id)
        (reason_given reason)
    pure target.0.id

  unfoldable pub export_personal : String → Method (MemorySpace × List Fields)
  unfolding scope_for personal_space
  export_personal principal = do
    space ← personal_space s principal
    scope ← lift (scope_for s principal space none)
    exported ← provided (s.provider.export scope)
    pure (space, exported)
