-- ===== src/Repository/Invariant/SpaceTable.antt =====
-- The space table.
use agent_ui.Prelude.{
  ℕ, ◌≤◌, ◌<◌, String, ◌≡◌, inl, inr, true, false, some, arith, nat_eq, string_eq, pair_eq,
  contains, find, Option-cases, eq_iff, is_some,
}
use agent_ui.Prelude.Dict.{values, get, IsDict, get-put, put-IsDict, get-of_find-none}
use agent_ui.Prelude.Json.{Fields}
use agent_ui.Repository.State.{Uuid, MemorySpace, Repository}
use agent_ui.Repository.Spaces.{
  store_space, ensure_personal_space, create_game_space, is_personal_of, is_game_of,
  new_personal_space,
}
use agent_ui.Repository.Invariant.Facts.{contains-add_membership}

-- A space is stored under its id, ids come from `uuid4` (all below `fresh`), nobody owns two
-- personal spaces, no two game spaces of an owner share a name, and a membership names a space.
pub record SpacesValid (fresh : ℕ) (r : Repository) : Type 0 where
  pub spaces_dict : IsDict r.spaces
  pub space_ids : (k : Uuid) (s : MemorySpace) → get k r.spaces ≡ some s → (s.id ≡ k) × (k < fresh)
  pub one_personal :
      (j k : Uuid) (s t : MemorySpace)
      → get j r.spaces ≡ some s
      → get k r.spaces ≡ some t
      → is_personal_of t.owner_principal_id s ≡ true
      → t.kind ≡ "personal"
      → j ≡ k
  pub members_stored :
      (k : Uuid) (p : String)
      → contains (k, p) r.memberships ≡ true
      → is_some (get k r.spaces) ≡ true

module _ (fresh : ℕ) (r : Repository) (s : MemorySpace) (v : SpacesValid fresh r) where
  -- A new space, of an owner who has no personal space if the new one is personal, keeps the table valid.
  pub store_space-SpacesValid :
      (bound : ℕ)
      → fresh ≤ s.id
      → s.id < bound
      → (s.kind ≡ "personal"
          → (k : Uuid) (t : MemorySpace) → get k r.spaces ≡ some t
          → is_personal_of s.owner_principal_id t ≡ false)
      → SpacesValid bound (store_space r s)
  unfolding store_space
  store_space-SpacesValid bound new below sole = record {
    spaces_dict = put-IsDict s.id s r.spaces v.spaces_dict;
    space_ids = λ k t at. ground (arith, get-put s.id k s r.spaces, v.space_ids k t);
    one_personal = λ j k t u at_t at_u p q. ground (
      arith,
      get-put s.id j s r.spaces,
      get-put s.id k s r.spaces,
      λ (q : s.kind ≡ "personal"). sole q j t,
      λ (q : s.kind ≡ "personal"). sole q k u,
      v.one_personal j k t u,
      eq_iff s.kind "personal",
      eq_iff u.kind "personal",
      eq_iff s.owner_principal_id u.owner_principal_id,
      eq_iff u.owner_principal_id s.owner_principal_id,
    );
    members_stored = λ k p m. ground (
      arith,
      get-put s.id k s r.spaces,
      contains-add_membership s.id s.owner_principal_id k p r.memberships,
      v.members_stored k p,
    );
  }

pub SpacesValid-mono :
    (fresh bound : ℕ) (r : Repository) → fresh ≤ bound → SpacesValid fresh r → SpacesValid bound r
SpacesValid-mono fresh bound r le v = record {
  spaces_dict = v.spaces_dict;
  space_ids = λ k s at. omega (arith, v.space_ids k s at);
  one_personal = v.one_personal;
  members_stored = v.members_stored;
}

-- `uuid4` gives an id that is not below `fresh`.
module _ (fresh bound new_id : ℕ) (r : Repository) (principal : String) (v : SpacesValid fresh r)
    (new : fresh ≤ new_id) (below : new_id < bound) where
  pub ensure_personal_space-SpacesValid :
      (namespace : String)
      → SpacesValid bound (ensure_personal_space r new_id principal namespace).0
  unfolding ensure_personal_space
  ensure_personal_space-SpacesValid namespace =
      elim (Option-cases (find (is_personal_of principal) (values r.spaces))) [
        | inr (s, found) ↦
            rw (found, ensure_personal_space) (SpacesValid-mono fresh bound r (omega arith) v)
        | inl absent ↦
            rw (absent, ensure_personal_space)
              (store_space-SpacesValid fresh r (new_personal_space new_id principal namespace) v
                bound new below
                (λ _ k t at. get-of_find-none (is_personal_of principal) k r.spaces absent at))
      ]

  pub create_game_space-SpacesValid :
      (name namespace : String) (metadata : Fields)
      → SpacesValid bound (create_game_space r new_id principal name namespace metadata).0
  unfolding create_game_space
  create_game_space-SpacesValid name namespace metadata =
      elim (Option-cases (find (is_game_of principal name) (values r.spaces))) [
        | inr (s, found) ↦
            rw (found, create_game_space) (SpacesValid-mono fresh bound r (omega arith) v)
        | inl absent ↦
            rw (absent, create_game_space)
              (store_space-SpacesValid fresh r
                (record {
                  id = new_id;
                  kind = "game";
                  owner_principal_id = principal;
                  display_name = name;
                  provider_namespace = namespace;
                  metadata = metadata;
                })
                v bound new below (λ q k t at. ground (arith, eq_iff "game" "personal")))
      ]
