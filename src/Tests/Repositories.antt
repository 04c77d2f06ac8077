-- ===== src/Tests/Repositories.antt =====
-- The theorems on the repository at a concrete repository.
use agent_ui.Prelude.{
  String, true, List, [], ◌∷◌, Option, none, some, ◌≡◌, ◌≢◌, refl, arith, All, find, contains,
  nat_eq, string_eq, eq_iff,
}
use agent_ui.Prelude.Json.{end}
use agent_ui.Prelude.Dict.{get, put}
use agent_ui.Repository.State.{
  Uuid, MemoryProposal, MemoryRecordRef, MemorySpace, Repository, empty_repository,
}
use agent_ui.Repository.Spaces
use agent_ui.Repository.Proposals
use agent_ui.Repository.Proposals.{
  new_proposal, moved, get_proposal, transition_proposal, expire_proposals,
}
use agent_ui.Repository.References
use agent_ui.Repository.References.{new_reference, get_record_ref, purge_record_content}
use agent_ui.Repository.Bridges
use agent_ui.Repository.Bridges.{active_bridges}
use agent_ui.Repository.Steps
use agent_ui.Repository.Steps.{Reach, Reach-IsValid, IsValid}
use agent_ui.Repository.Lifecycle.{transition_proposal-once, get-expire_proposals, swept}
use agent_ui.Repository.Tombstones.{Knows, Later-Knows, Later, purge_record_content-erases}
use agent_ui.Repository.Consent.{active_bridges-IsBridged, IsBridged}

abbrev pub with_space : Repository
with_space = (Spaces.ensure_personal_space empty_repository 1 "alice" "agent-ui").0

abbrev pub with_game : Repository
with_game = (Spaces.create_game_space with_space 2 "alice" "Chess" "games" end).0

abbrev pub with_proposal : Repository
with_proposal = (Proposals.add_proposal with_game 3 1000 1 "alice" "likes tea" "chat" none end 30).0

abbrev pub with_reference : Repository
with_reference =
    (References.add_record_ref with_proposal 4 1 "alice" "record" (some 3) (some "capture") end).0

abbrev pub full : Repository
full = (Bridges.set_bridge_consent with_reference "alice" 1 2 true true).0

pub full-Reach : Reach 5 full
full-Reach =
    Reach.next
      (Reach.next
        (Reach.next
          (Reach.next (Reach.next (Reach.start 1) (Steps.ensure_personal_space "alice" "agent-ui"))
            (Steps.create_game_space "alice" "Chess" "games" end))
          (Steps.add_proposal 1000 1 "alice" "likes tea" "chat" none end 30))
        (Steps.add_record_ref 1 "alice" "record" (some 3) (some "capture") end))
      (Steps.set_bridge_consent "alice" 1 2 true true)

Reach-IsValid_example : IsValid 5 full
Reach-IsValid_example = Reach-IsValid full-Reach

pub full-IsValid : IsValid 5 full
full-IsValid = Reach-IsValid full-Reach

abbrev pub tea : MemoryProposal
tea = new_proposal 3 1000 1 "alice" "likes tea" "chat" none end 30

abbrev reference : MemoryRecordRef
reference = new_reference 4 1 "alice" "record" (some 3) (some "capture") end

rejected_run :
    (transition_proposal full "alice" 3 "rejected" none).1 ≡ some (moved tea "rejected" none)
unfolding transition_proposal Spaces.ensure_personal_space Spaces.create_game_space
    Proposals.add_proposal References.add_record_ref Bridges.set_bridge_consent get put find
    contains
rejected_run = refl

rejected_other : ◌≢◌ {A = String} "rejected" "pending"
rejected_other = ground (arith, eq_iff "rejected" "pending")

transition_proposal-once_example :
    (get_proposal (transition_proposal full "alice" 3 "rejected" none).0 "alice" 3
      ≡ some (moved tea "rejected" none))
    × (◌≡◌ {A = String} "rejected" "rejected")
    × ((other : String) (later : String) (text : Option String)
        → transition_proposal
            (transition_proposal full "alice" 3 "rejected" none).0
            other
            3
            later
            text
          ≡ ((transition_proposal full "alice" 3 "rejected" none).0, none))
transition_proposal-once_example =
    transition_proposal-once 5 full "alice" 3 "rejected" none (moved tea "rejected" none)
      full-IsValid.of_proposals rejected_other rejected_run

get-expire_proposals_example :
    get 3 (expire_proposals full 9000000000000).0.proposals
    ≡ (elim (get 3 full.proposals) [ none ↦ none | some p ↦ some (swept 9000000000000 p) ])
get-expire_proposals_example = get-expire_proposals 5 full 9000000000000 3 full-IsValid.of_proposals

active_bridges-IsBridged_example :
    (spaces : List MemorySpace) × (active_bridges full "alice" 2 ≡ some spaces)
    × All (IsBridged full "alice" 2) spaces
active_bridges-IsBridged_example = active_bridges-IsBridged 5 full "alice" 2 full-IsValid

pub bridged_space :
    active_bridges full "alice" 2 ≡ some (Spaces.new_personal_space 1 "alice" "agent-ui" ∷ [])
unfolding active_bridges Spaces.ensure_personal_space Spaces.create_game_space
    Proposals.add_proposal References.add_record_ref Bridges.set_bridge_consent get put find
    contains
bridged_space = refl

found_run : get_record_ref full "alice" 4 ≡ some reference
unfolding get_record_ref Spaces.ensure_personal_space Spaces.create_game_space
    Proposals.add_proposal References.add_record_ref Bridges.set_bridge_consent get put find
    contains
found_run = refl

purge_record_content-erases_example :
    (get_record_ref (purge_record_content full "alice" 4) "alice" 4
      ≡ some (record reference { status = "purged" }))
    × ((p : Uuid) (q : MemoryProposal)
        → reference.proposal_id ≡ some p
        → get p (purge_record_content full "alice" 4).proposals ≡ some q
        → q.content ≡ none)
purge_record_content-erases_example =
    purge_record_content-erases 5 full "alice" 4 reference full-IsValid found_run

pub known_run : Knows full "alice" 1 "capture"
unfolding References.find_external_ref Spaces.ensure_personal_space Spaces.create_game_space
    Proposals.add_proposal References.add_record_ref Bridges.set_bridge_consent get put find
    contains
known_run = refl

Later-Knows_example : Knows (purge_record_content full "alice" 4) "alice" 1 "capture"
Later-Knows_example =
    Later-Knows "alice" 1 "capture" full-IsValid
      (Later.after Later.now (Steps.purge_record_content "alice" 4)) known_run
