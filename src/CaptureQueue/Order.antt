-- ===== src/CaptureQueue/Order.antt =====
-- The queue of memory_capture.py in every run: its order, its bound and its count.
use agent_ui.Prelude.{
  ℕ, ◌+◌, ◌≤◌, String, Bool, true, false, List, [], ◌∷◌, ◌++◌, All, All-append, All-split, length,
  length-append, map, ltb, ltb→lt, ◌≡◌, refl, arith, Bool-cases, inl, inr, sym, ◌∙◌, ap, subst,
  ◌&&◌, Result, ok, raise, pure,
}
use mathlib.Core.List.{append_assoc, append-nil, map-append}
use agent_ui.Prelude.Text.{is_empty, strip}
use agent_ui.Provider.{Error}
use agent_ui.Service.World.{MemoryService, World}
use agent_ui.CaptureQueue.{
  CaptureRequest, Capture, Worker, idle, busy, stopped, put_nowait, go_on, get_next, task_done,
  close, start, may_enqueue,
}
use agent_ui.Service.Access.{can_capture}
use agent_ui.CaptureQueue.Runs.{Asking, added, Run}

abbrev pub working : Worker → ℕ
working (busy request) = 1
working _ = 0

-- The requests that were queued are those that were taken and those that wait, in their order.
pub record IsInOrder (s : MemoryService) (queued : List (Asking s)) (taken : List CaptureRequest)
    (c : Capture) : Type 0 where
  pub order : map (λ a. a.request) queued ≡ taken ++ c.queue
  pub bound : length c.queue ≤ s.config.automatic.queue_size
  pub count : c.unfinished ≡ length c.queue + working c.worker

module _ (s : MemoryService) (queued : List (Asking s)) (taken : List CaptureRequest)
    (c : Capture) where
  -- What holds after a call has gone on with its answer.
  abbrev After : Asking s → Result Error Bool → Type 0
  After a answer =
      IsInOrder s (queued ++ added a (go_on s.config.automatic.queue_size a.request answer c).0)
        taken (go_on s.config.automatic.queue_size a.request answer c).1

  start-IsInOrder :
      c.worker ≡ stopped → IsInOrder s queued taken c → IsInOrder s queued taken (start s c)
  unfolding start
  start-IsInOrder no_worker held =
      elim (Bool-cases (s.config.automatic.enabled && s.config.automatic.capture)) [
        | inl on ↦ rw on record {
          order = held.order;
          bound = held.bound;
          count = held.count ∙ ap (λ w. length c.queue + working w) no_worker;
        }
        | inr off ↦ rw off held
      ]

  go_on-IsInOrder :
      (a : Asking s) (answer : Result Error Bool) → IsInOrder s queued taken c → After a answer
  unfolding go_on put_nowait
  go_on-IsInOrder a answer held = by-answer answer
    where
      none_added : IsInOrder s (queued ++ []) taken c
      none_added = subst (λ q. IsInOrder s q taken c) (sym (append-nil queued)) held

      by-answer : (answer : Result Error Bool) → After a answer
      by-answer (raise e) = none_added
      by-answer (ok false) = none_added
      by-answer (ok true) = elim (Bool-cases (ltb (length c.queue) s.config.automatic.queue_size)) [
        | inr full ↦ rw full none_added
        | inl room ↦ rw room record {
          order =
              map-append (λ b. b.request) queued (a ∷ [])
              ∙ ap (λ l. l ++ a.request ∷ []) held.order
              ∙ append_assoc taken c.queue (a.request ∷ []);
          bound = omega (arith, length-append c.queue (a.request ∷ []), ltb→lt _ _ room);
          count = omega (arith, length-append c.queue (a.request ∷ []), held.count);
        }
      ]

  take-IsInOrder :
      (request : CaptureRequest) (rest : List CaptureRequest)
      → c.worker ≡ idle
      → c.queue ≡ request ∷ rest
      → IsInOrder s queued taken c
      → IsInOrder s queued (taken ++ request ∷ []) (get_next c)
  unfolding get_next
  take-IsInOrder request rest waits next held =
      rw (waits, next)
        record {
          order =
              held.order ∙ ap (λ l. taken ++ l) next ∙ sym (append_assoc taken (request ∷ []) rest);
          bound = omega (arith, ap length next, held.bound);
          count = omega (arith, ap length next, ap working waits, held.count);
        }

  done-IsInOrder :
      (request : CaptureRequest)
      → c.worker ≡ busy request
      → IsInOrder s queued taken c
      → IsInOrder s queued taken (task_done c)
  unfolding task_done
  done-IsInOrder request works held = record {
    order = held.order;
    bound = held.bound;
    count = omega (arith, ap working works, held.count);
  }

  close-IsInOrder : IsInOrder s queued taken c → IsInOrder s queued taken (close c)
  unfolding close
  close-IsInOrder held = by-worker c.worker refl
    where
      by-worker : (w : Worker) → c.worker ≡ w → IsInOrder s queued taken (close c)
      by-worker stopped at =
          rw (at, close)
            record {
              order = held.order;
              bound = held.bound;
              count = omega (arith, ap working at, held.count);
            }
      by-worker idle at =
          rw (at, close)
            record {
              order = held.order;
              bound = held.bound;
              count = omega (arith, ap working at, held.count);
            }
      by-worker (busy request) at =
          rw (at, close)
            record {
              order = held.order;
              bound = held.bound;
              count = omega (arith, ap working at, held.count);
            }

module _ (s : MemoryService) (sha256 : String → String) (w : World s.provider.State) where
  -- A call of `enqueue` that asked in a world of a run from `w`, with a text that is not blank, and
  -- was told there by the service that it may capture.
  pub record IsAllowed (a : Asking s) : Type 0 where
    pub asking : List (Asking s)
    pub queued : List (Asking s)
    pub taken : List CaptureRequest
    pub queue : Capture
    pub until_asked : Run s sha256 w asking queued taken queue a.before
    pub worded : is_empty (strip a.request.user_text) ≡ false
    pub permitted :
        (can_capture s a.request.principal_id a.request.experience a.request.capability a.before).0
        ≡ ok true

  -- A call that asked in a world of a run, with the answer that it got.
  record IsAsked (a : Asking s) : Type 0 where
    asking : List (Asking s)
    queued : List (Asking s)
    taken : List CaptureRequest
    queue : Capture
    until_asked : Run s sha256 w asking queued taken queue a.before
    answered : a.answer ≡ (may_enqueue s a.request a.before).0

  asked-IsAllowed : (a : Asking s) → IsAsked a → a.answer ≡ ok true → IsAllowed a
  unfolding may_enqueue pure
  asked-IsAllowed a asked granted = elim (Bool-cases (is_empty (strip a.request.user_text))) [
    | inl blank ↦ absurd (ground (arith, granted, rw blank at asked.answered))
    | inr worded ↦ record {
      asking = asked.asking;
      queued = asked.queued;
      taken = asked.taken;
      queue = asked.queue;
      until_asked = asked.until_asked;
      worded = worded;
      permitted = sym (rw worded at asked.answered) ∙ granted;
    }
  ]

  added-IsAllowed :
      (a : Asking s) (answer : Result Error Bool) (c : Capture)
      → IsAsked a
      → a.answer ≡ answer
      → All IsAllowed (added a (go_on s.config.automatic.queue_size a.request answer c).0)
  unfolding go_on
  added-IsAllowed a (raise e) c asked at = tt
  added-IsAllowed a (ok false) c asked at = tt
  added-IsAllowed a (ok true) c asked at =
      elim (Bool-cases (put_nowait s.config.automatic.queue_size a.request c).0) [
        | inl there ↦ rw there (asked-IsAllowed a asked at, tt)
        | inr full ↦ rw full tt
      ]

  -- What is known of all calls of a run.
  abbrev AllKnown : List (Asking s) → List (Asking s) → List CaptureRequest → Capture → Type 0
  AllKnown asking queued taken c =
      All IsAsked asking × IsInOrder s queued taken c × All IsAllowed queued

  Run-AllKnown :
      {v : World s.provider.State} {asking queued : List (Asking s)} {taken : List CaptureRequest}
      {c : Capture}
      → Run s sha256 w asking queued taken c v
      → AllKnown asking queued taken c
  Run-AllKnown Run.begin = (tt, record { order = refl; bound = omega arith; count = refl }, tt)
  Run-AllKnown (Run.starts {queued = q} {taken = t} {c = c} no_worker run) =
      let (asked, held, allowed) = Run-AllKnown run in
      (asked, start-IsInOrder s q t c no_worker held, allowed)
  Run-AllKnown (Run.asks {asking = p} {queued = q} {taken = t} {c = c} {v = v} request run) =
      let (asked, held, allowed) = Run-AllKnown run in
      (
        (
          record {
            asking = p;
            queued = q;
            taken = t;
            queue = c;
            until_asked = run;
            answered = refl;
          },
          asked,
        ),
        held,
        allowed,
      )
  Run-AllKnown (Run.goes_on {queued = q} {taken = t} {c = c} later a earlier run) =
      let (asked, held, allowed) = Run-AllKnown run in
      let (first, own, last) = All-split IsAsked later a earlier asked in
      (
        All-append IsAsked later earlier first last,
        go_on-IsInOrder s q t c a a.answer held,
        All-append IsAllowed q _ allowed (added-IsAllowed a a.answer c own refl),
      )
  Run-AllKnown (Run.takes {queued = q} {taken = t} {c = c} request rest waits next run) =
      let (asked, held, allowed) = Run-AllKnown run in
      (asked, take-IsInOrder s q t c request rest waits next held, allowed)
  Run-AllKnown (Run.finishes {queued = q} {taken = t} {c = c} request answer works run) =
      let (asked, held, allowed) = Run-AllKnown run in
      (asked, done-IsInOrder s q t c request works held, allowed)
  Run-AllKnown (Run.closes {queued = q} {taken = t} {c = c} run) =
      let (asked, held, allowed) = Run-AllKnown run in
      (asked, close-IsInOrder s q t c held, allowed)
  Run-AllKnown (Run.serves calls plain run) = Run-AllKnown run

  -- In every run of the queue, its worker and the routes, in any order of the tasks, the requests
  -- that were queued are those that the worker took and those that wait, in their order; no more
  -- wait than the bound; the unfinished ones are those that wait and the one at work; and each is
  -- of a call of `enqueue` with a text that is not blank, whose principal the service allowed to
  -- capture in the world in which the call asked, which is a world of a run from the same start.
  pub Run-IsInOrder :
      {v : World s.provider.State} {asking queued : List (Asking s)} {taken : List CaptureRequest}
      {c : Capture}
      → Run s sha256 w asking queued taken c v
      → IsInOrder s queued taken c × All IsAllowed queued
  Run-IsInOrder run = let (asked, held, allowed) = Run-AllKnown run in (held, allowed)
