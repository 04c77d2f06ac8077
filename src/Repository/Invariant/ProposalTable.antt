-- ===== src/Repository/Invariant/ProposalTable.antt =====
-- The proposal table.
use agent_ui.Prelude.{
  ℕ, ◌≤◌, ◌<◌, String, ◌≡◌, refl, inl, inr, true, ◌&&◌, List, [], ◌∷◌, Option, none, some, arith,
  ◌==◌, nat_eq, string_eq, leb, Bool-cases, Option-cases, eq_iff,
}
use agent_ui.Prelude.Dict.{get, put, IsDict, get-put, put-IsDict}
use agent_ui.Prelude.Json.{Fields}
use agent_ui.Repository.State.{Uuid, Time, MemoryProposal, Repository}
use agent_ui.Repository.Proposals.{
  add_proposal, get_proposal, transition_proposal, moved, drops_content, expire_one, expire_loop,
  new_proposal,
}
use agent_ui.Repository.References.{erase_proposal}

-- A proposal is stored under its id, and one that was rejected or has expired holds no content.
pub record ProposalsValid (fresh : ℕ) (r : Repository) : Type 0 where
  pub proposals_dict : IsDict r.proposals
  pub proposal_ids :
      (k : Uuid) (p : MemoryProposal) → get k r.proposals ≡ some p → (p.id ≡ k) × (k < fresh)
  pub dropped :
      (k : Uuid) (p : MemoryProposal)
      → get k r.proposals ≡ some p
      → drops_content p.state ≡ true
      → p.content ≡ none

pub ProposalsValid-mono :
    (fresh bound : ℕ) (r : Repository)
    → fresh ≤ bound
    → ProposalsValid fresh r
    → ProposalsValid bound r
ProposalsValid-mono fresh bound r le v = record {
  proposals_dict = v.proposals_dict;
  proposal_ids = λ k p at. omega (arith, v.proposal_ids k p at);
  dropped = v.dropped;
}

module _ (fresh bound : ℕ) (r : Repository) (v : ProposalsValid fresh r) (le : fresh ≤ bound) where
  -- Any write of a proposal under its own id.
  pub put-ProposalsValid :
      (p : MemoryProposal)
      → p.id < bound
      → (drops_content p.state ≡ true → p.content ≡ none)
      → ProposalsValid bound (record r { proposals = put p.id p r.proposals })
  put-ProposalsValid p below clear = record {
    proposals_dict = put-IsDict p.id p r.proposals v.proposals_dict;
    proposal_ids = λ k q at. ground (arith, get-put p.id k p r.proposals, v.proposal_ids k q);
    dropped = λ k q at d. ground (arith, get-put p.id k p r.proposals, v.dropped k q);
  }

  pub add_proposal-ProposalsValid :
      (new_id : Uuid) (now : Time) (space : Uuid) (principal content experience : String)
      (chat_hash : Option String) (metadata : Fields) (days : ℕ)
      → new_id < bound
      → ProposalsValid bound
          (add_proposal r new_id now space principal content experience chat_hash metadata days).0
  unfolding add_proposal
  add_proposal-ProposalsValid new_id now space principal content experience chat_hash metadata days
        below =
      put-ProposalsValid
        (new_proposal new_id now space principal content experience chat_hash metadata days) below
        (λ d. ground (arith, eq_iff "pending" "rejected", eq_iff "pending" "expired"))

pub get_proposal-lem :
    (r : Repository) (principal : String) (id : Uuid) (p : MemoryProposal)
    → get_proposal r principal id ≡ some p
    → (get id r.proposals ≡ some p) × (p.principal_id ≡ principal)
unfolding get_proposal
get_proposal-lem r principal id p h = elim (Option-cases (get id r.proposals)) [
  | inl absent ↦ ground arith
  | inr (q, at) ↦ ground (arith, eq_iff q.principal_id principal)
]

module _ (fresh : ℕ) (r : Repository) (v : ProposalsValid fresh r) where
  pub transition_proposal-ProposalsValid :
      (principal : String) (id : Uuid) (state : String) (content : Option String)
      → ProposalsValid fresh (transition_proposal r principal id state content).0
  unfolding transition_proposal
  transition_proposal-ProposalsValid principal id state content =
      elim (Option-cases (get_proposal r principal id)) [
        | inl absent ↦ rw (absent, transition_proposal) v
        | inr (p, at) ↦ elim (Bool-cases (p.state == "pending")) [
          | inr settled ↦ rw (at, transition_proposal, settled) v
          | inl pending ↦
              rw (at, transition_proposal, pending)
                (put-ProposalsValid fresh fresh r v (omega arith) (moved p state content)
                  (omega (arith, v.proposal_ids id p (get_proposal-lem r principal id p at).0))
                  (λ d. ground arith))
        ]
      ]

  pub erase_proposal-ProposalsValid : (o : Option Uuid) → ProposalsValid fresh (erase_proposal r o)
  unfolding erase_proposal
  erase_proposal-ProposalsValid none = v
  erase_proposal-ProposalsValid (some id) = elim (Option-cases (get id r.proposals)) [
    | inl absent ↦ rw (absent, erase_proposal) v
    | inr (p, at) ↦
        rw (at, erase_proposal)
          (put-ProposalsValid fresh fresh r v (omega arith) (record p { content = none })
            (omega (arith, v.proposal_ids id p at)) (λ d. refl))
  ]

pub expire_one-ProposalsValid :
    (fresh : ℕ) (now : Time) (p : MemoryProposal) (s : Repository × ℕ)
    → ProposalsValid fresh s.0
    → ProposalsValid fresh (expire_one now p s).0
unfolding expire_one
expire_one-ProposalsValid fresh now p (r, n) v =
    elim (Bool-cases (p.state == "pending" && leb p.expires_at now)) [
      | inl due ↦
          rw due (transition_proposal-ProposalsValid fresh r v p.principal_id p.id "expired" none)
      | inr kept ↦ rw kept v
    ]

pub expire_loop-ProposalsValid :
    (fresh : ℕ) (now : Time) (ps : List MemoryProposal) (s : Repository × ℕ)
    → ProposalsValid fresh s.0
    → ProposalsValid fresh (expire_loop now ps s).0
unfolding expire_loop
expire_loop-ProposalsValid fresh now [] s v = v
expire_loop-ProposalsValid fresh now (p ∷ ps) s v =
    expire_loop-ProposalsValid fresh now ps (expire_one now p s)
      (expire_one-ProposalsValid fresh now p s v)
