-- ===== src/Repository/Bridges.antt =====
-- Bridge consents of the in-memory repository.
use agent_ui.Prelude.{
  String, Bool, ◌&&◌, List, [], ◌∷◌, Option, none, some, ◌==◌, nat_eq, string_eq, pair_eq, contains,
  if◌then◌else◌,
}
use agent_ui.Prelude.Dict.{get, put}
use agent_ui.Repository.State.{Uuid, MemorySpace, BridgeConsent, BridgeKey, Repository}

unfoldable pub set_bridge_consent :
    Repository → String → Uuid → Uuid → Bool → Bool → Repository × BridgeConsent
set_bridge_consent r principal source target source_consented target_consented =
    let value : BridgeConsent = record {
      source_space_id = source;
      target_space_id = target;
      source_consented = source_consented;
      target_consented = target_consented;
    } in
    (record r { bridges = put (source, (target, principal)) value r.bridges }, value)

abbrev pub is_active : Repository → String → Uuid → BridgeKey → BridgeConsent → Bool
is_active r principal target (source, (to, owner)) consent =
    owner == principal
    && to == target
    && consent.source_consented
    && consent.target_consented
    && contains (source, principal) r.memberships
    && contains (to, principal) r.memberships

-- The loop of `active_bridges`; `none` is the `KeyError` of `self.spaces[source_id]`.
unfoldable pub active_loop :
    Repository → String → Uuid → List (BridgeKey × BridgeConsent) → Option (List MemorySpace)
active_loop r principal target [] = some []
active_loop r principal target ((key, consent) ∷ rest) =
    let later = active_loop r principal target rest in
    if is_active r principal target key consent
    then elim (get key.0 r.spaces) [
      | none ↦ none
      | some space ↦ elim later [ none ↦ none | some spaces ↦ some (space ∷ spaces) ]
    ]
    else later

unfoldable pub active_bridges : Repository → String → Uuid → Option (List MemorySpace)
unfolding active_loop
active_bridges r principal target = active_loop r principal target r.bridges
