-- ===== src/Repository/Proposals.antt =====
-- The proposals of the in-memory repository.
use agent_ui.Prelude.{
  ℕ, ◌+◌, ◌*◌, String, Bool, ◌&&◌, ◌||◌, List, [], ◌∷◌, Option, none, some, ◌==◌, nat_eq, string_eq,
  select, leb, if◌then◌else◌,
}
use agent_ui.Prelude.Dict.{values, get, put}
use agent_ui.Prelude.Json.{Fields}
use agent_ui.Repository.State.{Uuid, Time, MemoryProposal, Repository}

abbrev pub day : Time
day = 24 * 60 * 60 * 1000000

abbrev pub new_proposal :
    Uuid → Time → Uuid → String → String → String → Option String → Fields → ℕ → MemoryProposal
new_proposal new_id now space principal content experience chat_hash metadata pending_days =
    record {
      id = new_id;
      space_id = space;
      principal_id = principal;
      content = some content;
      state = "pending";
      source_experience = experience;
      source_chat_hash = chat_hash;
      metadata = metadata;
      expires_at = now + pending_days * day;
      created_at = now;
    }

-- `new_id` is what `uuid4()` gives, `now` what `datetime.now(UTC)` does.
unfoldable pub add_proposal :
    Repository
    → Uuid
    → Time
    → Uuid
    → String
    → String
    → String
    → Option String
    → Fields
    → ℕ
    → Repository × MemoryProposal
add_proposal r new_id now space principal content experience chat_hash metadata pending_days =
    let item =
      new_proposal new_id now space principal content experience chat_hash metadata pending_days in
    (record r { proposals = put item.id item r.proposals }, item)

-- `sorted(..., key=created_at, reverse=True)`, which keeps the order of equal keys
insert_recent : MemoryProposal → List MemoryProposal → List MemoryProposal
insert_recent p [] = p ∷ []
insert_recent p (q ∷ qs) =
    if leb q.created_at p.created_at then p ∷ q ∷ qs else q ∷ insert_recent p qs

unfoldable pub sort_recent : List MemoryProposal → List MemoryProposal
unfolding insert_recent
sort_recent [] = []
sort_recent (p ∷ ps) = insert_recent p (sort_recent ps)

unfoldable pub list_proposals : Repository → String → String → List MemoryProposal
unfolding sort_recent
list_proposals r principal state =
    sort_recent
      (select (λ item. item.principal_id == principal && item.state == state) (values r.proposals))

unfoldable pub get_proposal : Repository → String → Uuid → Option MemoryProposal
get_proposal r principal id = elim (get id r.proposals) [
  | none ↦ none
  | some item ↦ if item.principal_id == principal then some item else none
]

abbrev pub drops_content : String → Bool
drops_content state = state == "rejected" || state == "expired"

abbrev pub moved : MemoryProposal → String → Option String → MemoryProposal
moved item state content = record item {
  content = if drops_content state then none else content;
  state = state;
}

unfoldable pub transition_proposal :
    Repository → String → Uuid → String → Option String → Repository × Option MemoryProposal
unfolding get_proposal
transition_proposal r principal id state content = elim (get_proposal r principal id) [
  | none ↦ (r, none)
  | some item ↦
      if item.state == "pending"
      then (
        record r { proposals = put item.id (moved item state content) r.proposals },
        some (moved item state content),
      )
      else (r, none)
]

-- One round of the loop of `expire_proposals`.
unfoldable pub expire_one : Time → MemoryProposal → Repository × ℕ → Repository × ℕ
unfolding transition_proposal
expire_one now item (r, expired) =
    if item.state == "pending" && leb item.expires_at now
    then ((transition_proposal r item.principal_id item.id "expired" none).0, expired + 1)
    else (r, expired)

unfoldable pub expire_loop : Time → List MemoryProposal → Repository × ℕ → Repository × ℕ
unfolding expire_one
expire_loop now [] s = s
expire_loop now (item ∷ items) s = expire_loop now items (expire_one now item s)

unfoldable pub expire_proposals : Repository → Time → Repository × ℕ
unfolding expire_loop
expire_proposals r now = expire_loop now (values r.proposals) (r, 0)
