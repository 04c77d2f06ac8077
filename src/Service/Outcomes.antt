-- ===== src/Service/Outcomes.antt =====
-- What single calls of `MemoryService` answer and leave.
use agent_ui.Prelude.{
  String, List, [], ◌∷◌, some, ◌≡◌, ◌≢◌, refl, false, arith, nat_eq, ok, raise, ◌>>=◌, All,
  Option-cases, inl, inr, eq_iff, string_eq,
}
use agent_ui.Prelude.Dict.{get}
use agent_ui.Provider.{access_error}
use agent_ui.Repository.State.{Uuid, MemoryRecordRef, MemorySpace}
use agent_ui.Repository.References.{get_record_ref}
use agent_ui.Repository.Tombstones.{Knows}
use agent_ui.Repository.Steps.{IsValid}
use agent_ui.Service.Guarantees.{perform_all-Knows}
use agent_ui.Service.Closed.Calls.{Call, perform_all}
use agent_ui.Repository.References
use agent_ui.Service.World.{MemoryService, World, reading}
use agent_ui.Service.Candidates.{SafeCandidate}
use agent_ui.Service.Records.{is_secret, record_target, correct_record, forget_record, purge_record}
use agent_ui.Service.Capture.{capture_one, capture_loop, automatic_capture_id}

module _ (s : MemoryService) (principal : String) (id : Uuid) (w : World s.provider.State) where
  foreign_target :
      (a : MemoryRecordRef)
      → get id w.repository.references ≡ some a
      → a.principal_id ≢ principal
      → record_target s principal id w ≡ (raise (access_error "memory record was not found"), w)
  unfolding record_target ◌>>=◌ reading get_record_ref
  foreign_target a at other = ground (arith, eq_iff a.principal_id principal)

-- A principal who corrects (with a content without a probable secret), forgets or purges a stored
-- record of somebody else gets the error of a missing record, and nothing changes.
pub foreign_record-refused :
    (s : MemoryService) (principal : String) (id : Uuid) (w : World s.provider.State)
    (a : MemoryRecordRef) (content reason : String)
    → get id w.repository.references ≡ some a
    → a.principal_id ≢ principal
    → is_secret s content ≡ false
    → (correct_record s principal id content reason w
        ≡ (raise (access_error "memory record was not found"), w))
      × (forget_record s principal id reason w
          ≡ (raise (access_error "memory record was not found"), w))
      × (purge_record s principal id reason w
          ≡ (raise (access_error "memory record was not found"), w))
unfolding correct_record forget_record purge_record ◌>>=◌
foreign_record-refused s principal id w a content reason at other clean =
    let refused = foreign_target s principal id w a at other in
    (rw (clean, refused), rw refused, rw refused)

module _ (s : MemoryService) (principal : String) where
  capture_known :
      (target : MemorySpace) (experience : String) (cs : List SafeCandidate)
      (w : World s.provider.State)
      → All
          (λ c.
            Knows w.repository principal target.id (automatic_capture_id s target.id c.normalized))
          cs
      → capture_loop s principal target experience cs w ≡ (ok [], w)
  unfolding capture_loop capture_one ◌>>=◌ reading
  capture_known target experience [] w known = refl
  capture_known target experience (c ∷ cs) w known =
      elim (Option-cases (
        References.find_external_ref w.repository principal target.id
          (automatic_capture_id s target.id c.normalized))) [
            | inl absent ↦ absurd (ground (arith, known.0))
            | inr (a, found) ↦ rw (found, capture_known target experience cs w known.1)
          ]

-- From a well-formed state in which every candidate of the automatic capture is known by its
-- external id, after any calls by anybody (purges included) the capture loop returns nothing and
-- changes nothing.
pub capture_loop-after_calls :
    (s : MemoryService) (principal : String) (target : MemorySpace) (experience : String)
    (cs : List SafeCandidate) (calls : List Call) (w : World s.provider.State)
    → IsValid w.uuids w.repository
    → All
        (λ c.
          Knows w.repository principal target.id (automatic_capture_id s target.id c.normalized))
        cs
    → capture_loop s principal target experience cs (perform_all s calls w)
      ≡ (ok [], perform_all s calls w)
capture_loop-after_calls s principal target experience cs calls w v known =
    capture_known s principal target experience cs (perform_all s calls w) (keep cs known)
  where
    keep :
        (ds : List SafeCandidate)
        → All
            (λ c.
              Knows w.repository principal target.id
                (automatic_capture_id s target.id c.normalized))
            ds
        → All
            (λ c.
              Knows
                (perform_all s calls w).repository
                principal
                target.id
                (automatic_capture_id s target.id c.normalized))
            ds
    keep [] k = tt
    keep (d ∷ ds) k = (
      perform_all-Knows s calls w principal target.id
          (automatic_capture_id s target.id d.normalized) v k.0,
      keep ds k.1,
    )
