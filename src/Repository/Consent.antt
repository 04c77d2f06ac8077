-- ===== src/Repository/Consent.antt =====
-- Which spaces a bridge opens.
use agent_ui.Prelude.{
  ℕ, String, ◌≡◌, refl, inl, inr, true, List, [], ◌∷◌, some, arith, nat_eq, string_eq, pair_eq,
  pair_beq_iff, contains, Bool-cases, Option-cases, eq_iff, All,
}
use agent_ui.Prelude.Dict.{Dict, get, IsDict}
use agent_ui.Repository.State.{Uuid, MemorySpace, BridgeConsent, BridgeKey, Repository}
use agent_ui.Repository.Spaces.{get_space}
use agent_ui.Repository.Bridges.{active_loop, active_bridges, is_active}
use agent_ui.Repository.Invariant.SpaceTable.{SpacesValid}
use agent_ui.Repository.Steps.{IsValid}

-- A space that the principal may read from `target`: a member of both ends, with both consents given.
pub record IsBridged (r : Repository) (principal : String) (target : Uuid) (s : MemorySpace)
    : Type 0 where
  pub readable : get_space r principal s.id ≡ some s
  pub consent : BridgeConsent
  pub consented : get (s.id, (target, principal)) r.bridges ≡ some consent
  pub by_source : consent.source_consented ≡ true
  pub by_target : consent.target_consented ≡ true
  pub target_member : contains (target, principal) r.memberships ≡ true

module _ (n : ℕ) (r : Repository) (principal : String) (target : Uuid) (v : SpacesValid n r) where
  bridged :
      (source to : Uuid) (owner : String) (c : BridgeConsent) (s : MemorySpace)
      → is_active r principal target (source, (to, owner)) c ≡ true
      → get source r.spaces ≡ some s
      → get (source, (to, owner)) r.bridges ≡ some c
      → IsBridged r principal target s
  unfolding get_space
  bridged source to owner c s active stored front =
      let own = v.space_ids source s stored in
      let e : owner ≡ principal = (eq_iff owner principal).0 (ground arith) in
      record {
        readable = ground (arith, own);
        consent = c;
        consented = ground (arith, own, e);
        by_source = ground arith;
        by_target = ground arith;
        target_member = ground arith;
      }

  active_loop-IsBridged :
      (d : Dict BridgeKey BridgeConsent)
      → IsDict d
      → ((k : BridgeKey) (c : BridgeConsent) → get k d ≡ some c → get k r.bridges ≡ some c)
      → (spaces : List MemorySpace) × (active_loop r principal target d ≡ some spaces)
        × All (IsBridged r principal target) spaces
  unfolding active_loop get
  active_loop-IsBridged [] h at = ([], refl, tt)
  active_loop-IsBridged (((source, (to, owner)), c) ∷ d) h at =
      let k : BridgeKey = (source, (to, owner)) in
      let front : get k r.bridges ≡ some c = at k c (ground (arith, eq_iff owner owner)) in
      let (spaces, ran, each) =
        active_loop-IsBridged d h.1
          (λ j b at_j. at j b (ground (arith, h.0, at_j, pair_beq_iff k j))) in
      elim (Bool-cases (is_active r principal target k c)) [
        | inr shut ↦ (spaces, rw shut ran, each)
        | inl active ↦ elim (Option-cases (get source r.spaces)) [
          | inl absent ↦ absurd (ground (arith, v.members_stored source principal))
          | inr (s, stored) ↦ (
            s ∷ spaces,
            rw (active, stored, ran),
            (bridged source to owner c s active stored front, each),
          )
        ]
      ]

-- On a well-formed state `active_bridges` returns, and only spaces that the principal is a member
-- of, with both consents stored for a target the principal is a member of.
pub active_bridges-IsBridged :
    (n : ℕ) (r : Repository) (principal : String) (target : Uuid)
    → IsValid n r
    → (spaces : List MemorySpace) × (active_bridges r principal target ≡ some spaces)
      × All (IsBridged r principal target) spaces
unfolding active_bridges
active_bridges-IsBridged n r principal target v =
    active_loop-IsBridged n r principal target v.of_spaces r.bridges v.of_bridges (λ k c at. at)
