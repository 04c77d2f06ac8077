-- ===== src/Repository/Invariant/Frames.antt =====
-- What each method leaves alone.
use agent_ui.Prelude.{ℕ, String, ◌≡◌, List, [], ◌∷◌, Option, none, arith}
use agent_ui.Prelude.Json.{Fields}
use agent_ui.Repository.State.{Uuid, Time, MemoryProposal, Repository}
use agent_ui.Repository.Spaces.{ensure_personal_space, create_game_space}
use agent_ui.Repository.Proposals.{transition_proposal, expire_one, expire_loop}
use agent_ui.Repository.References.{add_record_ref, set_record_status, erase_proposal}
use agent_ui.Repository.Invariant.SpaceTable.{SpacesValid}
use agent_ui.Repository.Invariant.ProposalTable.{ProposalsValid}
use agent_ui.Repository.Invariant.ReferenceTable.{ReferencesValid}

-- Two states with the same spaces, memberships and bridges.
pub record SameSpaces (r t : Repository) : Type 0 where
  pub spaces : t.spaces ≡ r.spaces
  pub memberships : t.memberships ≡ r.memberships
  pub bridges : t.bridges ≡ r.bridges

pub SpacesValid-frame :
    (n : ℕ) (r t : Repository)
    → t.spaces ≡ r.spaces
    → t.memberships ≡ r.memberships
    → SpacesValid n r
    → SpacesValid n t
SpacesValid-frame n r t s m v = record {
  spaces_dict = rw s v.spaces_dict;
  space_ids = rw s v.space_ids;
  one_personal = rw s v.one_personal;
  members_stored = rw (s, m) v.members_stored;
}

pub ProposalsValid-frame :
    (n : ℕ) (r t : Repository) → t.proposals ≡ r.proposals → ProposalsValid n r → ProposalsValid n t
ProposalsValid-frame n r t e v = record {
  proposals_dict = rw e v.proposals_dict;
  proposal_ids = rw e v.proposal_ids;
  dropped = rw e v.dropped;
}

pub ReferencesValid-frame :
    (n : ℕ) (r t : Repository)
    → t.references ≡ r.references
    → ReferencesValid n r
    → ReferencesValid n t
ReferencesValid-frame n r t e v = record {
  references_dict = rw e v.references_dict;
  reference_ids = rw e v.reference_ids;
  one_record = rw e v.one_record;
}

module _ (r : Repository) where
  pub ensure_personal_space-frame :
      (id : Uuid) (principal namespace : String)
      → ((ensure_personal_space r id principal namespace).0.proposals ≡ r.proposals)
        × ((ensure_personal_space r id principal namespace).0.references ≡ r.references)
        × ((ensure_personal_space r id principal namespace).0.bridges ≡ r.bridges)
  unfolding ensure_personal_space
  ensure_personal_space-frame id principal namespace = ground arith

  pub create_game_space-frame :
      (id : Uuid) (principal name namespace : String) (metadata : Fields)
      → ((create_game_space r id principal name namespace metadata).0.proposals ≡ r.proposals)
        × ((create_game_space r id principal name namespace metadata).0.references ≡ r.references)
        × ((create_game_space r id principal name namespace metadata).0.bridges ≡ r.bridges)
  unfolding create_game_space
  create_game_space-frame id principal name namespace metadata = ground arith

  pub transition_proposal-frame :
      (principal : String) (id : Uuid) (state : String) (content : Option String)
      → SameSpaces r (transition_proposal r principal id state content).0
        × ((transition_proposal r principal id state content).0.references ≡ r.references)
  unfolding transition_proposal
  transition_proposal-frame principal id state content = ground arith

  pub add_record_ref-frame :
      (id space : Uuid) (principal record_id : String) (proposal : Option Uuid)
      (external : Option String) (provenance : Fields)
      → SameSpaces r (add_record_ref r id space principal record_id proposal external provenance).0
        × ((add_record_ref r id space principal record_id proposal external provenance).0.proposals
            ≡ r.proposals)
  unfolding add_record_ref
  add_record_ref-frame id space principal record_id proposal external provenance = ground arith

  pub set_record_status-frame :
      (principal : String) (id : Uuid) (status : String)
      → SameSpaces r (set_record_status r principal id status)
        × ((set_record_status r principal id status).proposals ≡ r.proposals)
  unfolding set_record_status
  set_record_status-frame principal id status = ground arith

  pub erase_proposal-frame :
      (o : Option Uuid)
      → SameSpaces r (erase_proposal r o) × ((erase_proposal r o).references ≡ r.references)
  unfolding erase_proposal
  erase_proposal-frame o = ground arith

pub SameSpaces-trans : (r s t : Repository) → SameSpaces r s → SameSpaces s t → SameSpaces r t
SameSpaces-trans r s t a b = ground arith

pub expire_one-frame :
    (now : Time) (p : MemoryProposal) (s : Repository × ℕ)
    → SameSpaces s.0 (expire_one now p s).0 × ((expire_one now p s).0.references ≡ s.0.references)
unfolding expire_one
expire_one-frame now p (r, n) =
    ground (arith, transition_proposal-frame r p.principal_id p.id "expired" none)

pub expire_loop-frame :
    (now : Time) (ps : List MemoryProposal) (s : Repository × ℕ)
    → SameSpaces s.0 (expire_loop now ps s).0
      × ((expire_loop now ps s).0.references ≡ s.0.references)
unfolding expire_loop
expire_loop-frame now [] s = ground arith
expire_loop-frame now (p ∷ ps) s =
    ground (arith, expire_one-frame now p s, expire_loop-frame now ps (expire_one now p s))
