-- ===== src/Service/Approval.antt =====
-- Approval of a proposal by `MemoryService`.
use agent_ui.Prelude.{
  ℕ, ◌<◌, String, Option, none, some, ◌≡◌, ◌≢◌, refl, true, false, ◌&&◌, not, arith, nat_eq,
  string_eq, Exec, ok, ◌>>=◌, ◌>>◌, pure, throw, Option-cases, Bool-cases, inl, inr, eq_iff, leb,
  case_option, ap, subst, ◌∙◌, sym,
}
use agent_ui.Prelude.Bind.{>>=-Ran, lift-Ran, ensure-Ran}
use agent_ui.Prelude.Json.{str, field, end}
use agent_ui.Prelude.Text.{is_empty, strip}
use agent_ui.Provider.{Error, conflict_error}
use agent_ui.Repository.State.{Uuid, MemoryProposal, MemorySpace, MemoryRecordRef, Repository}
use agent_ui.Repository.Proposals.{get_proposal, transition_proposal}
use agent_ui.Repository.Invariant.ProposalTable.{ProposalsValid, get_proposal-lem}
use agent_ui.Repository.References.{add_record_ref}
use agent_ui.Repository.Invariant.Frames.{add_record_ref-frame, ProposalsValid-frame}
use agent_ui.Repository.Steps.{IsValid}
use agent_ui.Repository.Lifecycle.{transition_proposal-once, transition_proposal-content}
use agent_ui.Repository.Spaces
use agent_ui.Service.World.{
  MemoryService, World, provided, reading, writing, drawing, clock_now, audit,
}
use agent_ui.Service.Access.{require_space}
use agent_ui.Service.Records.{is_secret}
use agent_ui.Service.Review.{
  approve_proposal, store_approved, expire_on_approval, content_or, pending_content,
}

clock_now-Ran :
    {S : Type 0} (w : World S) (t : ℕ) (v : World S)
    → clock_now w ≡ (ok t, v)
    → (t ≡ w.clock) × (v ≡ w)
unfolding clock_now
clock_now-Ran w t v h = ground arith

module _ {S A : Type 0} where
  provided-repository :
      (m : Exec S Error A) (w : World S) (a : A) (v : World S)
      → provided m w ≡ (ok a, v)
      → v.repository ≡ w.repository
  unfolding provided
  provided-repository m w a v h = ground arith

module _ {S A : Type 0} where
  writing-Ran :
      (f : Repository → Repository × A) (w : World S) (a : A) (v : World S)
      → writing f w ≡ (ok a, v)
      → (a ≡ (f w.repository).1) × (v.repository ≡ (f w.repository).0)
  unfolding writing
  writing-Ran f w a v h = ground arith

  reading-Ran :
      (f : Repository → A) (w : World S) (a : A) (v : World S)
      → reading f w ≡ (ok a, v)
      → (f w.repository ≡ a) × (v ≡ w)
  unfolding reading
  reading-Ran f w a v h = ground arith

  never_thrown : (e : Error) (w : World S) (a : A) (v : World S) → throw e w ≢ (ok a, v)
  unfolding throw
  never_thrown e w a v h = ground arith

  drawing-Ran :
      (f : Uuid → Repository → Repository × A) (w : World S) (a : A) (v : World S)
      → drawing f w ≡ (ok a, v)
      → (a ≡ (f w.uuids w.repository).1) × (v.repository ≡ (f w.uuids w.repository).0)
  unfolding drawing
  drawing-Ran f w a v h = ground arith

-- The end of an approval, after the transition.
approval_end :
    (s : MemoryService) (principal : String) (item : MemoryProposal) (ref : MemoryRecordRef)
    (answer : Option MemoryProposal) (w v : World s.provider.State) (q : MemoryProposal) (id : Uuid)
    → case_option {A = MemoryProposal}
        {B = Exec (World s.provider.State) Error (MemoryProposal × Uuid)} answer
        (throw (conflict_error "proposal changed while it was being approved"))
        (λ p.
          audit s.host principal "proposal.approve" "proposal" (s.host.uuid_text item.id) end
          >> pure (p, ref.id))
        w
      ≡ (ok (q, id), v)
    → (answer ≡ some q) × (v.repository.proposals ≡ w.repository.proposals)
unfolding ◌>>=◌ audit Spaces.audit
approval_end s principal item ref none w v q id h = absurd (ground arith)
approval_end s principal item ref (some p) w v q id h = ground arith

require_space-unchanged :
    (s : MemoryService) (principal : String) (id : Uuid) (w : World s.provider.State)
    (space : MemorySpace) (v : World s.provider.State)
    → require_space s principal id w ≡ (ok space, v)
    → v.repository ≡ w.repository
unfolding require_space ◌>>=◌ reading
require_space-unchanged s principal id w space v h = ground arith

get_proposal-frame :
    (r t : Repository) (principal : String) (id : Uuid)
    → t.proposals ≡ r.proposals
    → get_proposal t principal id ≡ get_proposal r principal id
unfolding get_proposal
get_proposal-frame r t principal id e = rw e refl

-- What a call of `approve_proposal` that returned has found and left.
pub record Approved (s : MemoryService) (principal : String) (id : Uuid) (content : Option String)
    (w v : World s.provider.State) (q : MemoryProposal) : Type 0 where
  pub item : MemoryProposal
  pub own : String
  pub found : get_proposal w.repository principal id ≡ some item
  pub was_pending : item.state ≡ "pending"
  pub had_content : item.content ≡ some own
  pub in_time : w.clock < item.expires_at
  pub not_empty : is_empty (strip (content_or content own)) ≡ false
  pub not_secret : is_secret s (strip (content_or content own)) ≡ false
  pub now_approved : q.state ≡ "approved"
  pub now_content : q.content ≡ some (strip (content_or content own))
  pub stored : get_proposal v.repository principal id ≡ some q

module _ (s : MemoryService) (principal : String) (n : ℕ) where
  -- The transition of an approval, seen from the end of the call.
  approved_in :
      (item : MemoryProposal) (approved : String) (r t before after : Repository)
      (q : MemoryProposal)
      → ProposalsValid n before
      → r.proposals ≡ before.proposals
      → (transition_proposal r principal item.id "approved" (some approved)).0 ≡ t
      → (transition_proposal r principal item.id "approved" (some approved)).1 ≡ some q
      → after.proposals ≡ t.proposals
      → (get_proposal after principal item.id ≡ some q)
        × (q.state ≡ "approved")
        × (q.content ≡ some approved)
  approved_in item approved r t before after q valid same to answered kept =
      let (stored, state, _) =
        transition_proposal-once n r principal item.id "approved" (some approved) q
          (ProposalsValid-frame n before r same valid) (ground (arith, eq_iff "approved" "pending"))
          answered in
      let at : get_proposal t principal item.id ≡ some q = rw (← to) stored in
      (
        get_proposal-frame t after principal item.id kept ∙ at,
        state,
        rw (transition_proposal-content r principal item.id "approved" (some approved) q answered)
            (ground (arith, eq_iff "approved" "rejected", eq_iff "approved" "expired")),
      )

  store_approved-stored :
      (item : MemoryProposal) (approved : String) (w v : World s.provider.State)
      (q : MemoryProposal) (ref : Uuid)
      → ProposalsValid n w.repository
      → store_approved s principal item approved w ≡ (ok (q, ref), v)
      → (get_proposal v.repository principal item.id ≡ some q)
        × (q.state ≡ "approved")
        × (q.content ≡ some approved)
  unfolding store_approved
  store_approved-stored item approved w v q ref valid h =
      let a = >>=-Ran _ _ w (q, ref) v h in
      let b = >>=-Ran _ _ a.between (q, ref) v a.rest in
      let d = >>=-Ran _ _ b.between (q, ref) v b.rest in
      let e = >>=-Ran _ _ d.between (q, ref) v d.rest in
      let f = >>=-Ran _ _ e.between (q, ref) v e.rest in
      let g = >>=-Ran _ _ f.between (q, ref) v f.rest in
      let (answered, kept) =
        approval_end s principal item f.value g.value g.between v q ref g.rest in
      let found = require_space-unchanged s principal item.space_id w a.value a.between a.first in
      let scoped = (lift-Ran _ a.between b.value b.between b.first).1 in
      let weighed = (lift-Ran _ b.between d.value d.between d.first).1 in
      let ingested = provided-repository _ d.between e.value e.between e.first in
      let referred =
        drawing-Ran
          (λ i r.
            add_record_ref r i a.value.id principal e.value.id (some item.id) none
              (field "source_experience" (str item.source_experience) end))
          e.between f.value f.between f.first in
      let moved_on =
        writing-Ran (λ r. transition_proposal r principal item.id "approved" (some approved))
          f.between g.value g.between g.first in
      let frame =
        (add_record_ref-frame e.between.repository e.between.uuids a.value.id principal e.value.id
          (some item.id) none (field "source_experience" (str item.source_experience) end)).1 in
      let same : f.between.repository.proposals ≡ w.repository.proposals =
        ap (λ r. r.proposals) referred.1
        ∙ frame
        ∙ ap (λ r. r.proposals) ingested
        ∙ ap (λ x. x.repository.proposals) (sym weighed)
        ∙ ap (λ x. x.repository.proposals) (sym scoped)
        ∙ ap (λ r. r.proposals) found in
      approved_in item approved f.between.repository g.between.repository w.repository v.repository
        q valid same (sym moved_on.1) (sym moved_on.0 ∙ answered) kept

  expire_on_approval-raises :
      (item : MemoryProposal) (w v : World s.provider.State) (b : MemoryProposal × Uuid)
      → expire_on_approval s principal item w ≢ (ok b, v)
  unfolding expire_on_approval
  expire_on_approval-raises item w v b h =
      let a = >>=-Ran _ _ w b v h in
      let d = >>=-Ran _ _ a.between b v a.rest in never_thrown _ d.between b v d.rest

  -- The tests that `approve_proposal` makes before it writes.
  pending_content-lem :
      (found : Option MemoryProposal) (item : MemoryProposal) (own : String)
      → pending_content found ≡ some (item, own)
      → (found ≡ some item) × (item.state ≡ "pending") × (item.content ≡ some own)
  pending_content-lem none item own h = absurd (ground arith)
  pending_content-lem (some p) item own h = elim (Option-cases p.content) [
    | inl empty ↦ absurd (ground arith)
    | inr (c, full) ↦ ground (arith, full, eq_iff p.state "pending")
  ]

  approval_facts :
      (id : Uuid) (content : Option String) (w v : World s.provider.State) (q : MemoryProposal)
      (ref : Uuid)
      → IsValid n w.repository
      → (item : MemoryProposal) (own : String)
      → (get_proposal w.repository principal id ≡ some item)
        × (item.state ≡ "pending")
        × (item.content ≡ some own)
      → w.clock < item.expires_at
      → (not (is_empty (strip (content_or content own)))
          && not (is_secret s (strip (content_or content own))))
        ≡ true
      → store_approved s principal item (strip (content_or content own)) w ≡ (ok (q, ref), v)
      → Approved s principal id content w v q
  approval_facts id content w v q ref valid item own at in_time checks ran =
      let (stored, state, text) =
        store_approved-stored item (strip (content_or content own)) w v q ref valid.of_proposals
          ran in
      let same : item.id ≡ id =
        (valid.of_proposals.proposal_ids id item
          (get_proposal-lem w.repository principal id item at.0).0).0 in
      record {
        item = item;
        own = own;
        found = at.0;
        was_pending = at.1;
        had_content = at.2;
        in_time = in_time;
        not_empty = ground arith;
        not_secret = ground arith;
        now_approved = state;
        now_content = text;
        stored = rw (← same) stored;
      }

  -- On a well-formed repository, an approval that returns found the proposal pending, with content
  -- and not yet due, its stripped text not empty and without a probable secret; it stores and
  -- returns the proposal approved with that text.
  pub approve_proposal-Approved :
      (id : Uuid) (content : Option String) (w v : World s.provider.State) (q : MemoryProposal)
      (ref : Uuid)
      → IsValid n w.repository
      → approve_proposal s principal id content w ≡ (ok (q, ref), v)
      → Approved s principal id content w v q
  unfolding approve_proposal
  approve_proposal-Approved id content w v q ref valid h =
      let a = >>=-Ran _ _ w (q, ref) v h in
      let read = reading-Ran (λ r. get_proposal r principal id) w a.value a.between a.first in
      elim (Option-cases (pending_content a.value)) [
        | inl absent ↦ absurd (never_thrown _ a.between (q, ref) v (rw absent at a.rest))
        | inr ((item, own), pending) ↦
            let rest = rw pending at a.rest in
            let b = >>=-Ran _ _ a.between (q, ref) v rest in
            let clocked = clock_now-Ran a.between b.value b.between b.first in
            elim (Bool-cases (leb item.expires_at b.value)) [
              | inl due ↦
                  absurd (expire_on_approval-raises item b.between v (q, ref) (rw due at b.rest))
              | inr in_time ↦
                  let later = rw in_time at b.rest in
                  let d = >>=-Ran _ _ b.between (q, ref) v later in
                  let checked = ensure-Ran _ _ b.between d.between d.first in
                  approval_facts id content w v q ref valid item own
                    (pending_content-lem (get_proposal w.repository principal id) item own
                      (ap pending_content read.0 ∙ pending))
                    (ground (arith, read.1, clocked, in_time)) checked.0
                    (subst
                      (λ x.
                        store_approved s principal item (strip (content_or content own)) x
                        ≡ (ok (q, ref), v))
                      (sym checked.1 ∙ clocked.1 ∙ read.1) d.rest)
            ]
      ]
