-- ===== src/Service/Closed/Methods.antt =====
-- Every method keeps a closed predicate.
use agent_ui.Prelude.{
  ℕ, String, Bool, true, false, not, List, [], ◌∷◌, Option, none, some, ◌≡◌, arith,
}
use agent_ui.Prelude.Keeps.{Keeps, keeps_rules, Keeps-case_option, Keeps-pure}
use agent_ui.Prelude.Json.{Fields, Float}
use agent_ui.Provider.{MemoryScope, ProviderRecord}
use agent_ui.Repository.State.{Uuid, MemorySpace, MemoryRecordRef}
use agent_ui.Service.World.{MemoryService, World}
use agent_ui.Service.Access.{
  migrate_into, personal_space, require_space, settings_for, update_settings, can_retrieve,
  can_capture, spaces,
}
use agent_ui.Prelude.Dict.{Dict}
use agent_ui.Service.Records.{
  is_secret, known_record, store_record, add_approved, or_personal, manual_search, view_loop,
  records, record_target, correct_record, forget_record, purge_record, export_personal,
}
use agent_ui.Service.Closed.Rules.{
  IsClosed, reading-Keeps, audit-Keeps, set_settings-Keeps, set_record_status-Keeps,
  purge_record_content-Keeps, ensure_personal_space-Keeps, add_record_ref-Keeps,
}

module _ (s : MemoryService) (P : World s.provider.State → Type 0) (c : IsClosed s P) where
  migrate_into-Keeps :
      (principal : String) (space : MemorySpace) → Keeps P (migrate_into s principal space)
  unfolding migrate_into
  migrate_into-Keeps principal space =
      Keeps-case_option s.provider.migrate_legacy _ _ (Keeps-pure tt) (λ migrate have_it. search (
        keeps_rules,
        λ (scope : MemoryScope). c.migrated migrate principal scope have_it,
        audit-Keeps s P c,
      ))

  pub personal_space-Keeps : (principal : String) → Keeps P (personal_space s principal)
  unfolding personal_space
  personal_space-Keeps principal =
      search (keeps_rules, ensure_personal_space-Keeps s P c, migrate_into-Keeps)

  pub require_space-Keeps :
      (principal : String) (id : Uuid) → Keeps P (require_space s principal id)
  unfolding require_space
  require_space-Keeps principal id = search (keeps_rules, reading-Keeps s P c)

  pub settings_for-Keeps : (principal : String) → Keeps P (settings_for s principal)
  unfolding settings_for
  settings_for-Keeps principal = search (keeps_rules, reading-Keeps s P c)

  pub can_retrieve-Keeps :
      (principal experience : String) (capability : Option String)
      → Keeps P (can_retrieve s principal experience capability)
  unfolding can_retrieve
  can_retrieve-Keeps principal experience capability = search (keeps_rules, settings_for-Keeps)

  pub can_capture-Keeps :
      (principal experience : String) (capability : Option String)
      → Keeps P (can_capture s principal experience capability)
  unfolding can_capture
  can_capture-Keeps principal experience capability = search (keeps_rules, settings_for-Keeps)

  pub update_settings-Keeps :
      (principal : String) (a b d : Bool) → Keeps P (update_settings s principal a b d)
  unfolding update_settings
  update_settings-Keeps principal a b d =
      search (keeps_rules, set_settings-Keeps s P c, audit-Keeps s P c)

  pub spaces-Keeps : (principal : String) → Keeps P (spaces s principal)
  unfolding spaces
  spaces-Keeps principal = search (keeps_rules, personal_space-Keeps, reading-Keeps s P c)

-- The methods on records.
module _ (s : MemoryService) (P : World s.provider.State → Type 0) (c : IsClosed s P) where
  known_record-Keeps :
      (principal : String) (target : MemorySpace) (external : Option String)
      → Keeps P (known_record s principal target external)
  unfolding known_record
  known_record-Keeps principal target none = search keeps_rules
  known_record-Keeps principal target (some external) =
      search (keeps_rules, reading-Keeps s P c, c.listed) depth 9

  store_record-Keeps :
      (principal : String) (target : MemorySpace) (content : String) (source : Option String)
      (metadata : Fields) (importance : Float) (external : Option String)
      → is_secret s content ≡ false
      → Keeps P (store_record s principal target content source metadata importance external)
  unfolding store_record
  store_record-Keeps principal target content source metadata importance external clean =
      search (keeps_rules, c.ingested, add_record_ref-Keeps s P c, audit-Keeps s P c) depth 9

  or_personal-Keeps :
      (principal : String) (o : Option MemorySpace) → Keeps P (or_personal s principal o)
  or_personal-Keeps principal none = personal_space-Keeps s P c principal
  or_personal-Keeps principal (some space) = Keeps-pure space

  not_secret : (content : String) → not (is_secret s content) ≡ true → is_secret s content ≡ false
  not_secret content h = ground arith

  pub add_approved-Keeps :
      (principal content : String) (source : Option String) (metadata : Fields) (importance : Float)
      (external : Option String) (space : Option MemorySpace)
      → Keeps P (add_approved s principal content source metadata importance external space)
  unfolding add_approved
  add_approved-Keeps principal content source metadata importance external space =
      search (keeps_rules, or_personal-Keeps, known_record-Keeps, store_record-Keeps, not_secret)
        depth 9

  pub manual_search-Keeps :
      (principal query : String) (limit : ℕ) → Keeps P (manual_search s principal query limit)
  unfolding manual_search
  manual_search-Keeps principal query limit =
      search (keeps_rules, personal_space-Keeps s P c, c.loaded) depth 9

  view_loop-Keeps :
      (principal : String) (space : MemorySpace) (refs : Dict String MemoryRecordRef)
      (items : List ProviderRecord)
      → Keeps P (view_loop s principal space refs items)
  unfolding view_loop
  view_loop-Keeps principal space refs [] = search keeps_rules
  view_loop-Keeps principal space refs (item ∷ items) =
      let rest = view_loop-Keeps principal space refs items in
      search (keeps_rules, add_record_ref-Keeps s P c) depth 9

  pub records-Keeps : (principal : String) → Keeps P (records s principal)
  unfolding records
  records-Keeps principal =
      search
        (keeps_rules, personal_space-Keeps s P c, c.listed, reading-Keeps s P c, view_loop-Keeps)
        depth 9

  record_target-Keeps : (principal : String) (id : Uuid) → Keeps P (record_target s principal id)
  unfolding record_target
  record_target-Keeps principal id =
      search (keeps_rules, reading-Keeps s P c, require_space-Keeps s P c) depth 9

  pub correct_record-Keeps :
      (principal : String) (id : Uuid) (content reason : String)
      → Keeps P (correct_record s principal id content reason)
  unfolding correct_record
  correct_record-Keeps principal id content reason =
      search
        (
          keeps_rules,
          record_target-Keeps,
          c.corrected,
          set_record_status-Keeps s P c,
          audit-Keeps s P c,
          not_secret,
        )
        depth 11

  pub forget_record-Keeps :
      (principal : String) (id : Uuid) (reason : String)
      → Keeps P (forget_record s principal id reason)
  unfolding forget_record
  forget_record-Keeps principal id reason =
      search
        (
          keeps_rules,
          record_target-Keeps,
          c.forgotten,
          set_record_status-Keeps s P c,
          audit-Keeps s P c,
        )
        depth 11

  pub purge_record-Keeps :
      (principal : String) (id : Uuid) (reason : String)
      → Keeps P (purge_record s principal id reason)
  unfolding purge_record
  purge_record-Keeps principal id reason =
      search
        (
          keeps_rules,
          record_target-Keeps,
          c.purged,
          purge_record_content-Keeps s P c,
          audit-Keeps s P c,
        )
        depth 11

  pub export_personal-Keeps : (principal : String) → Keeps P (export_personal s principal)
  unfolding export_personal
  export_personal-Keeps principal =
      search (keeps_rules, personal_space-Keeps s P c, c.exported) depth 9
