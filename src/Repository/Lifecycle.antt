-- ===== src/Repository/Lifecycle.antt =====
-- The life of a proposal.
use agent_ui.Prelude.{
  ℕ, String, ◌≡◌, ◌≢◌, refl, inl, inr, ◌&&◌, [], ◌∷◌, Option, none, some, arith, ◌==◌, nat_eq,
  string_eq, leb, if◌then◌else◌, Option-cases, eq_iff,
}
use agent_ui.Prelude.Dict.{Dict, values, get, IsDict, get-put}
use agent_ui.Repository.State.{Uuid, Time, MemoryProposal, Repository}
use agent_ui.Repository.Proposals.{
  get_proposal, transition_proposal, moved, drops_content, expire_one, expire_loop,
  expire_proposals,
}
use agent_ui.Repository.Invariant.ProposalTable.{ProposalsValid}

-- In a well-formed proposal table, a transition to a state other than pending that answers is
-- stored as answered, and every further transition of that proposal answers nothing and changes
-- nothing.
pub transition_proposal-once :
    (fresh : ℕ) (r : Repository) (principal : String) (id : Uuid) (state : String)
    (content : Option String) (q : MemoryProposal)
    → ProposalsValid fresh r
    → state ≢ "pending"
    → (transition_proposal r principal id state content).1 ≡ some q
    → (get_proposal (transition_proposal r principal id state content).0 principal id ≡ some q)
      × (q.state ≡ state)
      × ((other : String) (later : String) (text : Option String)
          → transition_proposal
              (transition_proposal r principal id state content).0
              other
              id
              later
              text
            ≡ ((transition_proposal r principal id state content).0, none))
unfolding transition_proposal get_proposal
transition_proposal-once fresh r principal id state content q v settled answered =
    elim (Option-cases (get id r.proposals)) [
      | inl absent ↦ absurd (ground arith)
      | inr (p, at) ↦
          let own = v.proposal_ids id p at in
          (
            ground (
              arith,
              own,
              get-put p.id id (moved p state content) r.proposals,
              eq_iff p.principal_id principal,
            ),
            ground arith,
            λ other later text. ground (
              arith,
              own,
              get-put p.id id (moved p state content) r.proposals,
              eq_iff state "pending",
            ),
          )
    ]

-- What the sweep at `now` leaves of a proposal.
pub swept : Time → MemoryProposal → MemoryProposal
swept now p = if p.state == "pending" && leb p.expires_at now then moved p "expired" none else p

abbrev swept_in :
    Time → Uuid → Dict Uuid MemoryProposal → Option MemoryProposal → Option MemoryProposal
swept_in now k d before = elim (get k d) [ none ↦ before | some p ↦ some (swept now p) ]

get-expire_one :
    (now : Time) (p : MemoryProposal) (s : Repository × ℕ) (k : Uuid)
    → get p.id s.0.proposals ≡ some p
    → get k (expire_one now p s).0.proposals
      ≡ (if p.id == k then some (swept now p) else get k s.0.proposals)
unfolding expire_one transition_proposal get_proposal swept
get-expire_one now p (r, n) k at = ground (
  arith,
  get-put p.id k (moved p "expired" none) r.proposals,
  eq_iff p.principal_id p.principal_id,
)

get-expire_loop :
    (now : Time) (d : Dict Uuid MemoryProposal) (s : Repository × ℕ) (k : Uuid)
    → IsDict d
    → ((j : Uuid) (p : MemoryProposal)
        → get j d ≡ some p
        → (p.id ≡ j) × (get j s.0.proposals ≡ some p))
    → get k (expire_loop now (values d) s).0.proposals ≡ swept_in now k d (get k s.0.proposals)
unfolding expire_loop get
get-expire_loop now [] s k h at = refl
get-expire_loop now ((i, p) ∷ d) s k h at =
    let own = at i p (ground arith) in
    let rest =
      get-expire_loop now d (expire_one now p s) k h.1
        (λ j q at_j. ground (arith, h.0, own, at j q, get-expire_one now p s j (ground arith))) in
    ground (arith, h.0, own, rest, get-expire_one now p s k (ground arith))

-- In a well-formed proposal table, after the sweep each proposal is what the sweep makes of it
-- alone: expired and empty if it was pending and due, unchanged otherwise; none is lost or added.
pub get-expire_proposals :
    (fresh : ℕ) (r : Repository) (now : Time) (k : Uuid)
    → ProposalsValid fresh r
    → get k (expire_proposals r now).0.proposals
      ≡ (elim (get k r.proposals) [ none ↦ none | some p ↦ some (swept now p) ])
unfolding expire_proposals
get-expire_proposals fresh r now k v = ground (
  arith,
  get-expire_loop now r.proposals (r, 0) k v.proposals_dict
      (λ j p at. ((v.proposal_ids j p at).0, at)),
)

-- What a transition that answers stores for the content.
pub transition_proposal-content :
    (r : Repository) (principal : String) (id : Uuid) (state : String) (content : Option String)
    (q : MemoryProposal)
    → (transition_proposal r principal id state content).1 ≡ some q
    → q.content ≡ (if drops_content state then none else content)
unfolding transition_proposal get_proposal
transition_proposal-content r principal id state content q answered = ground arith
