-- ===== src/Service/Sharing.antt =====
-- Retrieval through bridges, bridge consent, and the game interface of memory_service.py.
use agent_ui.Prelude.{
  case_option, ℕ, ◌-◌, String, Bool, true, false, ◌&&◌, not, List, [], ◌∷◌, ◌++◌, map, Option, none,
  some, Result, ok, raise, pure, lift, ◌>>=◌, ◌>>◌, ensure, any, take, length, nat_beq,
  if◌then◌else◌, ◌==◌, string_eq,
}
use agent_ui.Prelude.Text.{join_two}
use agent_ui.Prelude.Json.{
  Value, Fields, null, str, boolean, end, field, put_field, float_seven_tenths,
}
use agent_ui.MemoryConfig.{BridgePolicy}
use agent_ui.Provider.{Error, access_error, other_error, ProviderRecord}
use agent_ui.Repository.State.{Uuid, MemorySpace, MemoryRecordRef, BridgeConsent}
use agent_ui.Repository.Spaces
use agent_ui.Repository.References
use agent_ui.Repository.Bridges
use agent_ui.Service.World.{MemoryService, reading, writing, drawing, provided, audit}
use agent_ui.Service.Access.{scope_for, personal_space, require_space, can_retrieve}
use agent_ui.Service.Records.{Method}

-- `PrincipalContext.kind` of identity.py
pub data PrincipalKind : Type 0 where
  user service : PrincipalKind

abbrev pub is_service : PrincipalKind → Bool
is_service user = false
is_service service = true

abbrev pub service_message : String
service_message = "game memory APIs require a service principal"

module _ (s : MemoryService) where
  abbrev from_bridge : MemorySpace → ProviderRecord → ProviderRecord
  from_bridge source item = record item {
    metadata = put_field "bridge_source_space_id" (str (s.host.uuid_text source.id)) item.metadata;
  }

  -- The loop of `context` over the bridged spaces; `limit` is at least one more than the length.
  unfoldable pub bridge_loop :
      String → String → ℕ → List MemorySpace → List ProviderRecord → Method s (List ProviderRecord)
  unfolding scope_for
  bridge_loop principal query limit [] found = pure found
  bridge_loop principal query limit (source ∷ sources) found = do
    scope ← lift (scope_for s principal source none)
    more ← provided (s.provider.context_load scope query (limit - length found))
    let all = found ++ map (from_bridge source) more
    if nat_beq (limit - length all) 0
        then pure all
        else bridge_loop principal query limit sources all

  -- `self.repository.active_bridges(...)`, a `KeyError` included
  abbrev bridged_spaces : Option (List MemorySpace) → Result Error (List MemorySpace)
  bridged_spaces none = raise (other_error "KeyError")
  bridged_spaces (some spaces) = ok spaces

  unfoldable pub context :
      String → String → ℕ → String → Option String → Method s (List ProviderRecord)
  unfolding scope_for personal_space can_retrieve bridge_loop
  context principal query limit experience capability = do
    allowed ← can_retrieve s principal experience capability
    if not allowed then pure [] else do
      target ← personal_space s principal
      scope ← lift (scope_for s principal target none)
      own ← provided (s.provider.context_load scope query limit)
      if not s.config.bridges.enabled
          then pure own
          else if nat_beq (limit - length own) 0
          then pure own
          else do
            found ← reading (λ r. Bridges.active_bridges r principal target.id)
            sources ← lift (bridged_spaces found)
            all ← bridge_loop principal query limit sources own
            pure (take limit all)

  abbrev allows : MemorySpace → MemorySpace → BridgePolicy → Bool
  allows source target item = item.source_kind == source.kind && item.target_kind == target.kind

  unfoldable pub set_bridge : String → Uuid → Uuid → Bool → Bool → Method s (BridgeConsent × Bool)
  unfolding require_space audit any
  set_bridge principal source_id target_id source_consented target_consented = do
    ensure s.config.bridges.enabled (access_error "memory bridges are disabled by the operator")
    source ← require_space s principal source_id
    target ← require_space s principal target_id
    ensure (any (allows source target) s.config.bridges.operator_allowlist)
        (access_error "this bridge direction is not operator-allowlisted")
    consent ← writing (λ r.
        Bridges.set_bridge_consent r principal source.id target.id source_consented
          target_consented)
    audit s.host principal "bridge.consent" "bridge"
        (join_two (s.host.uuid_text source.id) (join_two "->" (s.host.uuid_text target.id)))
        (field "source_consented" (boolean source_consented)
          (field "target_consented" (boolean target_consented) end))
    pure (consent, source_consented && target_consented)

  abbrev optional_text : Option String → Value
  optional_text none = null
  optional_text (some t) = str t

  -- principal, kind, display name, namespace, world, campaign, player
  unfoldable pub create_game_space :
      String
      → PrincipalKind
      → String
      → String
      → String
      → String
      → Option String
      → Method s MemorySpace
  create_game_space principal kind name namespace world campaign player = do
    ensure (is_service kind) (access_error service_message)
    drawing (λ id r. Spaces.create_game_space r id principal name namespace (
        field "world_id" (str world)
          (field "campaign_id" (str campaign) (field "player_id" (optional_text player) end))))

  -- `true` beside the reference is a duplicate.
  unfoldable pub ingest_game_event :
      String
      → PrincipalKind
      → Uuid
      → String
      → String
      → Fields
      → Option String
      → Method s (MemoryRecordRef × Bool)
  unfolding scope_for require_space
  ingest_game_event principal kind space_id external content metadata session = do
    ensure (is_service kind) (access_error service_message)
    space ← require_space s principal space_id
    ensure (Spaces.is_game space) (access_error "structured events require a game memory space")
    existing ← reading (λ r. References.find_external_ref r principal space.id external)
    case_option existing
        (do
          scope ← lift (scope_for s principal space session)
          ingested ← provided (
              s.provider.ingest scope content (some "game-event") metadata float_seven_tenths
                (some external))
          reference ← drawing (λ id r.
              References.add_record_ref r id space.id principal ingested.id none (some external)
                (field "source" (str "game-event") end))
          pure (reference, false))
        (λ reference. pure (reference, true))

  unfoldable pub game_context :
      String → PrincipalKind → Uuid → String → ℕ → Option String → Method s (List ProviderRecord)
  unfolding scope_for require_space
  game_context principal kind space_id query limit session = do
    ensure (is_service kind) (access_error service_message)
    space ← require_space s principal space_id
    ensure (Spaces.is_game space) (access_error "game context requires a game memory space")
    scope ← lift (scope_for s principal space session)
    provided (s.provider.context_load scope query limit)
