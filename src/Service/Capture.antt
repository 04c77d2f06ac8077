-- ===== src/Service/Capture.antt =====
-- Automatic capture of memory_service.py: proposals for review, and records without review.
use agent_ui.Prelude.{case_option, String, List, [], ◌∷◌, Option, none, some, pure, lift, ◌>>=◌}
use agent_ui.Prelude.Text.{join_two, join}
use agent_ui.Prelude.Json.{Fields, str, put_field}
use agent_ui.Repository.State.{Uuid, MemoryProposal, MemoryRecordRef, MemorySpace}
use agent_ui.Repository.Proposals
use agent_ui.Repository.References
use agent_ui.Service.World.{MemoryService, reading, drawing, clock_now}
use agent_ui.Service.Candidates.{SafeCandidate, safe_candidates, candidate_metadata}
use agent_ui.Service.Access.{personal_space, subject_secret}
use agent_ui.Service.Records.{Method, add_approved}

module _ (s : MemoryService) where
  unfoldable pub propose_loop :
      String
      → MemorySpace
      → String
      → Option String
      → List SafeCandidate
      → Method s (List MemoryProposal)
  propose_loop principal target experience chat_hash [] = pure []
  propose_loop principal target experience chat_hash (c ∷ cs) = do
    now ← clock_now
    created ← drawing (λ id r.
        Proposals.add_proposal r id now target.id principal c.content experience chat_hash
          (candidate_metadata c) s.config.retention.pending_days)
    later ← propose_loop principal target experience chat_hash cs
    pure (created ∷ later)

  unfoldable pub add_proposals :
      String → List Fields → String → Option String → Method s (List MemoryProposal)
  unfolding personal_space propose_loop safe_candidates
  add_proposals principal candidates experience chat_hash = do
    target ← personal_space s principal
    safe ← lift (safe_candidates s.host s.config.automatic.max_candidates candidates)
    propose_loop principal target experience chat_hash safe

  -- `_automatic_capture_id`
  unfoldable pub automatic_capture_id : Uuid → String → String
  unfolding subject_secret
  automatic_capture_id space normalized = join_two "automatic-v1:" (
      s.host.hmac_hex (subject_secret s)
        (join "\0" ("agent-ui-automatic-memory-v1" ∷ s.host.uuid_text space ∷ normalized ∷ [])))

  -- One round of the loop of `add_automatic_candidates`: a known capture is not made again.
  unfoldable pub capture_one :
      String → MemorySpace → String → SafeCandidate → Method s (Option MemoryRecordRef)
  unfolding automatic_capture_id add_approved
  capture_one principal target experience c = do
    let external = automatic_capture_id target.id c.normalized
    known ← reading (λ r. References.find_external_ref r principal target.id external)
    case_option known
        (do
          added ←
              add_approved s principal c.content (some "automatic-capture")
                (put_field "source_experience" (str experience) (candidate_metadata c)) c.importance
                (some external) (some target)
          pure (some added.1))
        (λ _. pure none)

  abbrev cons_some : {A : Type 0} → Option A → List A → List A
  cons_some none xs = xs
  cons_some (some x) xs = x ∷ xs

  unfoldable pub capture_loop :
      String → MemorySpace → String → List SafeCandidate → Method s (List MemoryRecordRef)
  unfolding capture_one
  capture_loop principal target experience [] = pure []
  capture_loop principal target experience (c ∷ cs) = do
    created ← capture_one principal target experience c
    later ← capture_loop principal target experience cs
    pure (cons_some created later)

  unfoldable pub add_automatic_candidates :
      String → List Fields → String → Method s (List MemoryRecordRef)
  unfolding personal_space capture_loop safe_candidates
  add_automatic_candidates principal candidates experience = do
    target ← personal_space s principal
    safe ← lift (safe_candidates s.host s.config.automatic.max_candidates candidates)
    capture_loop principal target experience safe
