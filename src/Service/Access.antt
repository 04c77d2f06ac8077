-- ===== src/Service/Access.antt =====
-- Settings, spaces, scopes and the capture and retrieval policy of memory_service.py.
use agent_ui.Prelude.{
  case_option, String, Bool, false, ◌&&◌, not, List, Option, none, some, Exec, Result, ok, raise,
  pure, throw, lift, ◌>>=◌, ◌>>◌, contains, if◌then◌else◌, nat_beq, string_eq,
}
use agent_ui.Prelude.Text.{is_empty}
use agent_ui.Prelude.Json.{int, boolean, pos, end, field, get_field, truthy}
use agent_ui.Host.{Host}
use agent_ui.Provider.{Error, access_error, identity_error, MemoryScope}
use agent_ui.Repository.State.{Uuid, UserMemorySettings, MemorySpace}
use agent_ui.Repository.Spaces
use agent_ui.Service.World.{MemoryService, World, reading, writing, drawing, provided, audit}
use agent_ui.Service.Candidates.{to_text}

-- `pseudonymous_subject` of identity.py
unfoldable pub pseudonymous_subject : Host → String → String → Result Error String
pseudonymous_subject h principal secret =
    if is_empty secret
    then raise (identity_error "MEMORY_SUBJECT_HMAC_KEY is not configured")
    else ok (h.hmac_hex secret principal)

-- `space.metadata.get(key)` as text, if it is truthy
unfoldable pub metadata_text : Host → MemorySpace → String → Option String
unfolding to_text
metadata_text h space key =
    case_option (get_field key space.metadata) none
      (λ v. if truthy v then some (to_text h v) else none)

abbrev pub or_else : Option String → String → String
or_else none d = d
or_else (some s) d = s

module _ (s : MemoryService) where
  -- `_subject_secret`
  unfoldable pub subject_secret : String
  subject_secret =
      case_option (s.host.getenv s.config.personal.subject_hmac_env) s.subject_hmac_fallback
        (λ secret. if is_empty secret then s.subject_hmac_fallback else secret)

  -- `_opaque_session`
  unfoldable pub opaque_session : Option String → Option String
  unfolding subject_secret
  opaque_session none = none
  opaque_session (some id) = if is_empty id then none else some (s.host.hmac_hex subject_secret id)

  unfoldable pub scope_for : String → MemorySpace → Option String → Result Error MemoryScope
  unfolding pseudonymous_subject metadata_text opaque_session subject_secret
  scope_for principal space session = elim (pseudonymous_subject s.host principal subject_secret) [
    | raise e ↦ raise e
    | ok subject ↦
        if Spaces.is_personal space
        then ok (record {
          namespace = space.provider_namespace;
          workspace_id = s.host.uuid_text space.id;
          context_id = some s.config.personal.context;
          subject_id = some subject;
          session_id = opaque_session session;
        })
        else ok (record {
          namespace = space.provider_namespace;
          workspace_id =
              or_else (metadata_text s.host space "world_id") (s.host.uuid_text space.id);
          context_id =
              some (or_else (metadata_text s.host space "campaign_id") (s.host.uuid_text space.id));
          subject_id = some (or_else (metadata_text s.host space "player_id") subject);
          session_id = opaque_session session;
        })
  ]

  unfoldable pub settings_for : String → Exec (World s.provider.State) Error UserMemorySettings
  settings_for principal = do
    stored ← reading (λ r. Spaces.get_settings r principal)
    case_option stored
        (let default = s.config.automatic.enabled && s.config.automatic.default_user_enabled in
          pure
            (record { enabled = default; capture_enabled = default; retrieval_enabled = default }))
        (λ settings. pure settings)

  unfoldable pub update_settings :
      String → Bool → Bool → Bool → Exec (World s.provider.State) Error UserMemorySettings
  unfolding audit
  update_settings principal enabled capture retrieval = do
    stored ← writing (λ r.
        Spaces.set_settings r principal
          (record { enabled = enabled; capture_enabled = capture; retrieval_enabled = retrieval }))
    audit s.host principal "settings.update" "principal" principal (
        field "enabled" (boolean enabled) (
          field "capture_enabled" (boolean capture)
            (field "retrieval_enabled" (boolean retrieval) end)))
    pure stored

  -- The end of `personal_space`: records of a provider from before spaces move into the space.
  unfoldable pub migrate_into : String → MemorySpace → Exec (World s.provider.State) Error Unit
  unfolding scope_for audit
  migrate_into principal space = case_option s.provider.migrate_legacy (pure tt) (λ migrate. do
    scope ← lift (scope_for principal space none)
    migrated ← provided (migrate principal scope)
    if nat_beq migrated 0
        then pure tt
        else audit s.host principal "legacy.migrate" "space" (s.host.uuid_text space.id)
            (field "records" (int (pos migrated)) end))

  unfoldable pub personal_space : String → Exec (World s.provider.State) Error MemorySpace
  unfolding migrate_into
  personal_space principal = do
    space ←
        drawing (λ id r. Spaces.ensure_personal_space r id principal s.config.provider.namespace)
    migrate_into principal space
    pure space

  -- `_space`
  unfoldable pub require_space : String → Uuid → Exec (World s.provider.State) Error MemorySpace
  require_space principal id = do
    found ← reading (λ r. Spaces.get_space r principal id)
    case_option found (throw (access_error "memory space was not found")) (λ space. pure space)

  unfoldable pub automatic_experience_allowed : String → Option String → Bool
  automatic_experience_allowed experience capability =
      if not s.config.automatic.enabled
      then false
      else if contains experience s.config.automatic.excluded_experiences
      then false
      else case_option capability false
          (λ c. not (is_empty c) && contains c s.config.automatic.capabilities)

  unfoldable pub can_capture :
      String → String → Option String → Exec (World s.provider.State) Error Bool
  unfolding settings_for automatic_experience_allowed
  can_capture principal experience capability = do
    settings ← settings_for principal
    pure (
        s.provider.enabled
        && s.config.automatic.capture
        && automatic_experience_allowed experience capability
        && settings.enabled
        && settings.capture_enabled)

  unfoldable pub can_retrieve :
      String → String → Option String → Exec (World s.provider.State) Error Bool
  unfolding settings_for automatic_experience_allowed
  can_retrieve principal experience capability = do
    settings ← settings_for principal
    pure (
        s.provider.enabled
        && s.config.automatic.retrieval
        && automatic_experience_allowed experience capability
        && settings.enabled
        && settings.retrieval_enabled)

  unfoldable pub spaces : String → Exec (World s.provider.State) Error (List MemorySpace)
  unfolding personal_space
  spaces principal = do personal_space principal; reading (λ r. Spaces.list_spaces r principal)
