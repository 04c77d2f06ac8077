-- ===== src/Service/Review.antt =====
-- Proposals of memory_service.py: listing, approval, rejection.
use agent_ui.Prelude.{
  case_option, String, ◌&&◌, not, List, Option, none, some, pure, throw, lift, ◌>>=◌, ◌>>◌, ensure,
  leb, if◌then◌else◌, ◌==◌, string_eq, is_some,
}
use agent_ui.Prelude.Text.{is_empty, strip}
use agent_ui.Prelude.Json.{str, end, field, get_field, update}
use agent_ui.Provider.{conflict_error}
use agent_ui.Repository.State.{Uuid, MemoryProposal}
use agent_ui.Repository.Proposals
use agent_ui.Repository.References
use agent_ui.Service.World.{MemoryService, reading, writing, drawing, provided, clock_now, audit}
use agent_ui.Service.Candidates.{float_or_raise, or_half}
use agent_ui.Service.Access.{scope_for, require_space}
use agent_ui.Service.Records.{Method, is_secret}

-- `content or proposal.content`
abbrev pub content_or : Option String → String → String
content_or none d = d
content_or (some s) d = if is_empty s then d else s

-- A proposal that can be approved: pending, with its content.
abbrev pub pending_content : Option MemoryProposal → Option (MemoryProposal × String)
pending_content none = none
pending_content (some p) =
    if p.state == "pending" then case_option p.content none (λ c. some (p, c)) else none

module _ (s : MemoryService) where
  unfoldable pub proposals : String → String → Method s (List MemoryProposal)
  proposals principal state = do
    now ← clock_now
    writing (λ r. Proposals.expire_proposals r now)
    reading (λ r. Proposals.list_proposals r principal state)

  abbrev transition : String → Uuid → String → Option String → Method s (Option MemoryProposal)
  transition principal id state content =
      writing (λ r. Proposals.transition_proposal r principal id state content)

  -- What `approve_proposal` does with a proposal that is due.
  unfoldable pub expire_on_approval : String → MemoryProposal → Method s (MemoryProposal × Uuid)
  unfolding audit
  expire_on_approval principal p = do
    expired ← transition principal p.id "expired" none
    if is_some expired
        then audit s.host principal "proposal.expire" "proposal" (s.host.uuid_text p.id) end
        else pure tt
    throw (conflict_error "proposal has expired")

  -- The writing part of `approve_proposal`.
  unfoldable pub store_approved :
      String → MemoryProposal → String → Method s (MemoryProposal × Uuid)
  unfolding scope_for require_space audit float_or_raise
  store_approved principal p approved = do
    space ← require_space s principal p.space_id
    scope ← lift (scope_for s principal space none)
    importance ← lift (float_or_raise s.host (or_half (get_field "importance" p.metadata)))
    ingested ← provided (
        s.provider.ingest scope approved (some "proposal")
          (update (field "proposal_id" (str (s.host.uuid_text p.id)) end) p.metadata) importance
          (some (s.host.uuid_text p.id)))
    reference ← drawing (λ id r.
        References.add_record_ref r id space.id principal ingested.id (some p.id) none
          (field "source_experience" (str p.source_experience) end))
    transitioned ← transition principal p.id "approved" (some approved)
    case_option transitioned (throw (conflict_error "proposal changed while it was being approved"))
        (λ q. do
          audit s.host principal "proposal.approve" "proposal" (s.host.uuid_text p.id) end
          pure (q, reference.id))

  unfoldable pub approve_proposal : String → Uuid → Option String → Method s (MemoryProposal × Uuid)
  unfolding expire_on_approval store_approved
  approve_proposal principal id content = do
    found ← reading (λ r. Proposals.get_proposal r principal id)
    case_option (pending_content found) (throw (conflict_error "proposal is not pending"))
        (λ (p, own). do
          now ← clock_now
          if leb p.expires_at now then expire_on_approval principal p else do
            let approved = strip (content_or content own)
            ensure (not (is_empty approved) && not (is_secret s approved))
                (conflict_error "approved memory is empty or contains a probable secret")
            store_approved principal p approved)

  unfoldable pub reject_proposal : String → Uuid → Method s MemoryProposal
  unfolding audit
  reject_proposal principal id = do
    transitioned ← transition principal id "rejected" none
    case_option transitioned (throw (conflict_error "proposal is not pending")) (λ q. do
      audit s.host principal "proposal.reject" "proposal" (s.host.uuid_text id) end
      pure q)
