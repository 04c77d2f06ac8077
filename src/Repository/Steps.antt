-- ===== src/Repository/Steps.antt =====
-- Any sequence of calls of the in-memory repository.
use agent_ui.Prelude.{
  ℕ, suc, ◌≤◌, String, ◌≡◌, refl, Bool, Option, arith, nat_eq, string_eq, pair_eq, contains,
  Option-cases, inl, inr,
}
use agent_ui.Prelude.Dict.{get, values, IsDict, put-IsDict}
use agent_ui.Prelude.Json.{Fields}
use agent_ui.Repository.State.{Uuid, Time, UserMemorySettings, Repository, empty_repository}
use agent_ui.Repository.Spaces
use agent_ui.Repository.Proposals
use agent_ui.Repository.References
use agent_ui.Repository.Bridges
use agent_ui.Repository.Invariant.SpaceTable.{
  SpacesValid, SpacesValid-mono, ensure_personal_space-SpacesValid, create_game_space-SpacesValid,
}
use agent_ui.Repository.Invariant.ProposalTable.{
  ProposalsValid, ProposalsValid-mono, add_proposal-ProposalsValid,
  transition_proposal-ProposalsValid, expire_loop-ProposalsValid, erase_proposal-ProposalsValid,
}
use agent_ui.Repository.Invariant.ReferenceTable.{
  ReferencesValid, ReferencesValid-mono, add_record_ref-ReferencesValid,
  set_record_status-ReferencesValid,
}
use agent_ui.Repository.Invariant.Frames.{
  SpacesValid-frame, ProposalsValid-frame, ReferencesValid-frame, ensure_personal_space-frame,
  create_game_space-frame, transition_proposal-frame, add_record_ref-frame, set_record_status-frame,
  erase_proposal-frame, expire_loop-frame, SameSpaces,
}

-- A call that writes. `n` counts the draws of `uuid4`: each draw gives a number that none gave
-- before.
pub data Step (n : ℕ) (r : Repository) : ℕ → Repository → Type 0 where
  set_settings :
      (principal : String) (s : UserMemorySettings)
      → Step n r n (Spaces.set_settings r principal s).0
  ensure_personal_space :
      (principal namespace : String)
      → Step n r (suc n) (Spaces.ensure_personal_space r n principal namespace).0
  create_game_space :
      (principal name namespace : String) (metadata : Fields)
      → Step n r (suc n) (Spaces.create_game_space r n principal name namespace metadata).0
  add_proposal :
      (now : Time) (space : Uuid) (principal content experience : String) (hash : Option String)
      (metadata : Fields) (days : ℕ)
      → Step n r
          (suc n)
          (Proposals.add_proposal r n now space principal content experience hash metadata days).0
  transition_proposal :
      (principal : String) (id : Uuid) (state : String) (content : Option String)
      → Step n r n (Proposals.transition_proposal r principal id state content).0
  expire_proposals : (now : Time) → Step n r n (Proposals.expire_proposals r now).0
  add_record_ref :
      (space : Uuid) (principal record_id : String) (proposal : Option Uuid)
      (external : Option String) (provenance : Fields)
      → Step n r
          (suc n)
          (References.add_record_ref r n space principal record_id proposal external provenance).0
  set_record_status :
      (principal : String) (id : Uuid) (status : String)
      → Step n r n (References.set_record_status r principal id status)
  purge_record_content :
      (principal : String) (id : Uuid) → Step n r n (References.purge_record_content r principal id)
  set_bridge_consent :
      (principal : String) (source target : Uuid) (a b : Bool)
      → Step n r n (Bridges.set_bridge_consent r principal source target a b).0
  audit :
      (lower : String → String) (principal action target_type target : String) (metadata : Fields)
      → Step n r n (Spaces.audit lower r principal action target_type target metadata)

pub data Reach : ℕ → Repository → Type 0 where
  start : (n : ℕ) → Reach n empty_repository
  next : {n m : ℕ} {r t : Repository} → Reach n r → Step n r m t → Reach m t

-- The well-formed states.
pub record IsValid (n : ℕ) (r : Repository) : Type 0 where
  pub of_spaces : SpacesValid n r
  pub of_proposals : ProposalsValid n r
  pub of_references : ReferencesValid n r
  pub of_bridges : IsDict r.bridges

pub empty-IsValid : (n : ℕ) → IsValid n empty_repository
unfolding get contains
empty-IsValid n = record {
  of_spaces = record {
    spaces_dict = tt;
    space_ids = λ k s at. cc;
    one_personal = λ j k s t at. cc;
    members_stored = λ k p m. cc;
  };
  of_proposals = record {
    proposals_dict = tt;
    proposal_ids = λ k p at. cc;
    dropped = λ k p at. cc;
  };
  of_references = record {
    references_dict = tt;
    reference_ids = λ k a at. cc;
    one_record = λ j k a b at. cc;
  };
  of_bridges = tt;
}

-- A call that touches none of the first three tables.
untouched :
    {n : ℕ} (r t : Repository)
    → t.spaces ≡ r.spaces
    → t.memberships ≡ r.memberships
    → t.proposals ≡ r.proposals
    → t.references ≡ r.references
    → IsDict t.bridges
    → IsValid n r
    → IsValid n t
untouched {n} r t s m p e b v = record {
  of_spaces = SpacesValid-frame n r t s m v.of_spaces;
  of_proposals = ProposalsValid-frame n r t p v.of_proposals;
  of_references = ReferencesValid-frame n r t e v.of_references;
  of_bridges = b;
}

-- A call that may touch the proposals alone.
proposals_only :
    {n : ℕ} (r t : Repository)
    → SameSpaces r t × (t.references ≡ r.references)
    → ProposalsValid n t
    → IsValid n r
    → IsValid n t
proposals_only {n} r t e w v = record {
  of_spaces = SpacesValid-frame n r t e.0.spaces e.0.memberships v.of_spaces;
  of_proposals = w;
  of_references = ReferencesValid-frame n r t e.1 v.of_references;
  of_bridges = rw e.0.bridges v.of_bridges;
}

-- A call that may touch the references alone.
references_only :
    {n m : ℕ} (r t : Repository)
    → n ≤ m
    → SameSpaces r t × (t.proposals ≡ r.proposals)
    → ReferencesValid m t
    → IsValid n r
    → IsValid m t
references_only {n} {m} r t le e w v = record {
  of_spaces =
      SpacesValid-mono n m t le (SpacesValid-frame n r t e.0.spaces e.0.memberships v.of_spaces);
  of_proposals = ProposalsValid-mono n m t le (ProposalsValid-frame n r t e.1 v.of_proposals);
  of_references = w;
  of_bridges = rw e.0.bridges v.of_bridges;
}

-- A call that may touch the spaces alone.
spaces_only :
    {n m : ℕ} (r t : Repository)
    → n ≤ m
    → (t.proposals ≡ r.proposals) × (t.references ≡ r.references) × (t.bridges ≡ r.bridges)
    → SpacesValid m t
    → IsValid n r
    → IsValid m t
spaces_only {n} {m} r t le e w v = record {
  of_spaces = w;
  of_proposals = ProposalsValid-mono n m t le (ProposalsValid-frame n r t e.0 v.of_proposals);
  of_references = ReferencesValid-mono n m t le (ReferencesValid-frame n r t e.1 v.of_references);
  of_bridges = rw e.2 v.of_bridges;
}

pub set_record_status-IsValid :
    (n : ℕ) (r : Repository) (principal : String) (id : Uuid) (status : String)
    → IsValid n r
    → IsValid n (References.set_record_status r principal id status)
set_record_status-IsValid n r principal id status v =
    references_only r (References.set_record_status r principal id status) (omega arith)
      (set_record_status-frame r principal id status)
      (set_record_status-ReferencesValid n r v.of_references principal id status) v

erase_proposal-IsValid :
    (n : ℕ) (r : Repository) (o : Option Uuid)
    → IsValid n r
    → IsValid n (References.erase_proposal r o)
erase_proposal-IsValid n r o v =
    proposals_only r (References.erase_proposal r o) (erase_proposal-frame r o)
      (erase_proposal-ProposalsValid n r v.of_proposals o) v

purge_record_content-IsValid :
    (n : ℕ) (r : Repository) (principal : String) (id : Uuid)
    → IsValid n r
    → IsValid n (References.purge_record_content r principal id)
unfolding References.purge_record_content
purge_record_content-IsValid n r principal id v =
    elim (Option-cases (References.get_record_ref r principal id)) [
      | inl absent ↦
          rw (absent, References.purge_record_content)
            (set_record_status-IsValid n r principal id "purged" v)
      | inr (a, at) ↦
          rw (at, References.purge_record_content)
            (set_record_status-IsValid n (References.erase_proposal r a.proposal_id) principal id
              "purged" (erase_proposal-IsValid n r a.proposal_id v))
    ]

-- Every writing call keeps the repository well-formed.
pub Step-IsValid : {n m : ℕ} {r t : Repository} → Step n r m t → IsValid n r → IsValid m t
unfolding Spaces.set_settings Spaces.audit Bridges.set_bridge_consent Proposals.expire_proposals
    Proposals.add_proposal
Step-IsValid {n} {r = r} (set_settings principal s) v =
    untouched r _ refl refl refl refl v.of_bridges v
Step-IsValid {n} {r = r} (ensure_personal_space principal namespace) v =
    spaces_only r (Spaces.ensure_personal_space r n principal namespace).0 (omega arith)
      (ensure_personal_space-frame r n principal namespace)
      (ensure_personal_space-SpacesValid n (suc n) n r principal v.of_spaces (omega arith)
        (omega arith) namespace)
      v
Step-IsValid {n} {r = r} (create_game_space principal name namespace metadata) v =
    spaces_only r (Spaces.create_game_space r n principal name namespace metadata).0 (omega arith)
      (create_game_space-frame r n principal name namespace metadata)
      (create_game_space-SpacesValid n (suc n) n r principal v.of_spaces (omega arith) (omega arith)
        name namespace metadata)
      v
Step-IsValid {n} {r = r} (add_proposal now space principal content experience hash metadata days)
      v =
    record {
      of_spaces =
          SpacesValid-mono n (suc n) _ (omega arith)
            (SpacesValid-frame n r _ refl refl v.of_spaces);
      of_proposals =
          add_proposal-ProposalsValid n (suc n) r v.of_proposals (omega arith) n now space principal
            content experience hash metadata days (omega arith);
      of_references =
          ReferencesValid-mono n (suc n) _ (omega arith)
            (ReferencesValid-frame n r _ refl v.of_references);
      of_bridges = v.of_bridges;
    }
Step-IsValid {n} {r = r} (transition_proposal principal id state content) v =
    proposals_only r (Proposals.transition_proposal r principal id state content).0
      (transition_proposal-frame r principal id state content)
      (transition_proposal-ProposalsValid n r v.of_proposals principal id state content) v
Step-IsValid {n} {r = r} (expire_proposals now) v =
    proposals_only r (Proposals.expire_proposals r now).0
      (expire_loop-frame now (values r.proposals) (r, 0))
      (expire_loop-ProposalsValid n now (values r.proposals) (r, 0) v.of_proposals) v
Step-IsValid {n} {r = r} (add_record_ref space principal record_id proposal external provenance) v =
    references_only r
      (References.add_record_ref r n space principal record_id proposal external provenance).0
      (omega arith)
      (add_record_ref-frame r n space principal record_id proposal external provenance)
      (add_record_ref-ReferencesValid n (suc n) r v.of_references (omega arith) n space principal
        record_id proposal external provenance (omega arith))
      v
Step-IsValid {n} {r = r} (set_record_status principal id status) v =
    set_record_status-IsValid n r principal id status v
Step-IsValid {n} {r = r} (purge_record_content principal id) v =
    purge_record_content-IsValid n r principal id v
Step-IsValid {n} {r = r} (set_bridge_consent principal source target a b) v =
    untouched r _ refl refl refl refl
      (put-IsDict (source, (target, principal)) _ r.bridges v.of_bridges) v
Step-IsValid {n} {r = r} (audit lower principal action target_type target metadata) v =
    untouched r _ refl refl refl refl v.of_bridges v

-- Every state that the writing calls of the in-memory repository reach from the empty one is
-- well-formed: rows under their own ids, one personal space per principal, one reference per
-- provider record of a space, members of stored spaces only, no content in a rejected or expired
-- proposal.
pub Reach-IsValid : {n : ℕ} {r : Repository} → Reach n r → IsValid n r
Reach-IsValid (start n) = empty-IsValid n
Reach-IsValid (next reached s) = Step-IsValid s (Reach-IsValid reached)
