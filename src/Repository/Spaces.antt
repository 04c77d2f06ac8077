-- ===== src/Repository/Spaces.antt =====
-- Settings, spaces, memberships and the audit trail of the in-memory repository.
use agent_ui.Prelude.{
  String, Bool, ◌&&◌, List, [], ◌∷◌, ◌++◌, Option, none, some, ◌==◌, nat_eq, string_eq, pair_eq,
  contains, find, select, if◌then◌else◌,
}
use agent_ui.Prelude.Dict.{values, get, put}
use agent_ui.Prelude.Json.{Fields, end, field}
use agent_ui.Repository.State.{Uuid, UserMemorySettings, MemorySpace, Repository}

unfoldable pub get_settings : Repository → String → Option UserMemorySettings
get_settings r principal = get principal r.settings

unfoldable pub set_settings :
    Repository → String → UserMemorySettings → Repository × UserMemorySettings
set_settings r principal settings =
    (record r { settings = put principal settings r.settings }, settings)

-- `self.memberships.add(...)`
unfoldable pub add_membership : Uuid → String → List (Uuid × String) → List (Uuid × String)
add_membership space principal ms =
    if contains (space, principal) ms then ms else ms ++ (space, principal) ∷ []

abbrev pub is_personal : MemorySpace → Bool
is_personal space = space.kind == "personal"

abbrev pub is_game : MemorySpace → Bool
is_game space = space.kind == "game"

abbrev pub is_personal_of : String → MemorySpace → Bool
is_personal_of principal space = space.kind == "personal" && space.owner_principal_id == principal

abbrev pub is_game_of : String → String → MemorySpace → Bool
is_game_of principal name space =
    space.kind == "game" && space.owner_principal_id == principal && space.display_name == name

-- The end of both creating methods: the space is stored, and its owner is a member.
unfoldable pub store_space : Repository → MemorySpace → Repository
unfolding add_membership
store_space r space = record r {
  spaces = put space.id space r.spaces;
  memberships = add_membership space.id space.owner_principal_id r.memberships;
}

abbrev pub new_personal_space : Uuid → String → String → MemorySpace
new_personal_space new_id principal namespace = record {
  id = new_id;
  kind = "personal";
  owner_principal_id = principal;
  display_name = "Personal";
  provider_namespace = namespace;
  metadata = end;
}

-- `new_id` is what `uuid4()` gives.
unfoldable pub ensure_personal_space :
    Repository → Uuid → String → String → Repository × MemorySpace
unfolding store_space
ensure_personal_space r new_id principal namespace =
    elim (find (is_personal_of principal) (values r.spaces)) [
      | some space ↦ (r, space)
      | none ↦
          let space = new_personal_space new_id principal namespace in (store_space r space, space)
    ]

unfoldable pub create_game_space :
    Repository → Uuid → String → String → String → Fields → Repository × MemorySpace
unfolding store_space
create_game_space r new_id principal name namespace metadata =
    elim (find (is_game_of principal name) (values r.spaces)) [
      | some space ↦ (r, space)
      | none ↦
          let space : MemorySpace = record {
            id = new_id;
            kind = "game";
            owner_principal_id = principal;
            display_name = name;
            provider_namespace = namespace;
            metadata = metadata;
          } in
          (store_space r space, space)
    ]

unfoldable pub get_space : Repository → String → Uuid → Option MemorySpace
get_space r principal space =
    if contains (space, principal) r.memberships then get space r.spaces else none

unfoldable pub list_spaces : Repository → String → List MemorySpace
list_spaces r principal = select (λ s. contains (s.id, principal) r.memberships) (values r.spaces)

abbrev pub blocked_keys : List String
blocked_keys = "content" ∷ "text" ∷ "prompt" ∷ "message" ∷ "messages" ∷ []

-- `_audit_metadata`; `lower` is `str.lower`.
unfoldable pub audit_metadata : (String → String) → Fields → Fields
audit_metadata lower end = end
audit_metadata lower (field k v fs) =
    if contains (lower k) blocked_keys
    then audit_metadata lower fs
    else field k v (audit_metadata lower fs)

unfoldable pub audit :
    (String → String) → Repository → String → String → String → String → Fields → Repository
audit lower r principal action target_type target metadata = record r {
  audit_events =
      r.audit_events
      ++ (record {
        principal_id = principal;
        action = action;
        target_type = target_type;
        target_id = target;
        metadata = audit_metadata lower metadata;
      })
        ∷ [];
}
