-- ===== src/CaptureQueue/Runs.antt =====
-- What may happen to the queue of memory_capture.py, in any order of the tasks.
use agent_ui.Prelude.{String, Bool, true, false, List, [], ◌∷◌, ◌++◌, ◌≡◌, Result, ok, any}
use agent_ui.Prelude.Json.{Fields}
use agent_ui.Provider.{Error}
use agent_ui.Service.World.{MemoryService, World}
use agent_ui.Service.Closed.Calls.{Call, is_game_event, perform_all}
use agent_ui.CaptureQueue.{
  CaptureRequest, Capture, idle, busy, stopped, empty_queue, go_on, get_next, task_done, close,
  start, may_enqueue, handle_request,
}

-- A call of `enqueue`: the world in which it asked, and its answer there.
pub record Asking (s : MemoryService) : Type 0 where
  pub request : CaptureRequest
  pub before : World s.provider.State
  pub answer : Result Error Bool

-- The call whose request is in the queue once `enqueue` returned, if it is.
abbrev pub added : {s : MemoryService} → Asking s → Result Error Bool → List (Asking s)
added a (ok true) = a ∷ []
added a _ = []

module _ (s : MemoryService) (sha256 : String → String) where
  -- Runs from an empty queue and a world, with the calls of `enqueue` that asked and did not go on,
  -- and those that put their request into the queue, in the order of the insertions; then the
  -- requests that the worker took, in its order, the queue, and the world.
  pub data Run (w : World s.provider.State)
      : List (Asking s)
        → List (Asking s)
        → List CaptureRequest
        → Capture
        → World s.provider.State
        → Type 0 where
    begin : Run w [] [] [] empty_queue w
    starts :
        {asking queued : List (Asking s)} {taken : List CaptureRequest} {c : Capture}
        {v : World s.provider.State}
        → c.worker ≡ stopped
        → Run w asking queued taken c v
        → Run w asking queued taken (start s c) v
    -- `enqueue` is called and asks
    asks :
        {asking queued : List (Asking s)} {taken : List CaptureRequest} {c : Capture}
        {v : World s.provider.State}
        → (request : CaptureRequest) → Run w asking queued taken c v
        → Run w
            (record { request = request; before = v; answer = (may_enqueue s request v).0 }
              ∷ asking)
            queued
            taken
            c
            (may_enqueue s request v).1
    -- a call that asked goes on
    goes_on :
        {queued : List (Asking s)} {taken : List CaptureRequest} {c : Capture}
        {v : World s.provider.State}
        → (later : List (Asking s)) (a : Asking s) (earlier : List (Asking s))
        → Run w (later ++ a ∷ earlier) queued taken c v
        → Run w
            (later ++ earlier)
            (queued ++ added a (go_on s.config.automatic.queue_size a.request a.answer c).0)
            taken
            (go_on s.config.automatic.queue_size a.request a.answer c).1
            v
    takes :
        {asking queued : List (Asking s)} {taken : List CaptureRequest} {c : Capture}
        {v : World s.provider.State}
        → (request : CaptureRequest) (rest : List CaptureRequest) → c.worker ≡ idle
        → c.queue ≡ request ∷ rest
        → Run w asking queued taken c v
        → Run w asking queued (taken ++ request ∷ []) (get_next c) v
    finishes :
        {asking queued : List (Asking s)} {taken : List CaptureRequest} {c : Capture}
        {v : World s.provider.State}
        → (request : CaptureRequest) (answer : Result Error (List Fields)) → c.worker ≡ busy request
        → Run w asking queued taken c v
        → Run w asking queued taken (task_done c) (handle_request s sha256 request answer v)
    closes :
        {asking queued : List (Asking s)} {taken : List CaptureRequest} {c : Capture}
        {v : World s.provider.State}
        → Run w asking queued taken c v
        → Run w asking queued taken (close c) v
    -- routes call the service
    serves :
        {asking queued : List (Asking s)} {taken : List CaptureRequest} {c : Capture}
        {v : World s.provider.State}
        → (calls : List Call) → any is_game_event calls ≡ false
        → Run w asking queued taken c v
        → Run w asking queued taken c (perform_all s calls v)
