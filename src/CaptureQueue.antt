-- ===== src/CaptureQueue.antt =====
-- services/gateway/src/local_ai_hub/memory_capture.py: the bounded queue of capture requests and its
-- worker. Between two awaits of one task the others may run, so `enqueue` is two operations:
-- `may_enqueue`, up to its await, and `go_on`, with the insertion.
pub mod Runs
pub mod Order
pub mod Store
use agent_ui.Prelude.{
  ℕ, suc, ◌+◌, ◌-◌, String, Bool, true, false, ◌&&◌, not, List, [], ◌∷◌, ◌++◌, Option, none, some,
  Result, ok, raise, pure, ◌>>=◌, length, ltb, case_option, if◌then◌else◌,
}
use agent_ui.Prelude.Text.{is_empty, strip}
use agent_ui.Prelude.Json.{Fields}
use agent_ui.MemoryConfig.{CaptureMode, review, automatic}
use agent_ui.Provider.{Error}
use agent_ui.Catalog.{truthy_text}
use agent_ui.Service.World.{MemoryService, World}
use agent_ui.Service.Access.{can_capture}
use agent_ui.Service.Capture.{add_proposals, add_automatic_candidates}
use agent_ui.Service.Records.{Method}

pub record CaptureRequest : Type 0 where
  pub principal_id : String
  pub experience : String
  pub capability : Option String
  pub user_text : String
  pub chat_id : Option String

-- The task of the worker: none, waiting for a request, or at work on one.
pub data Worker : Type 0 where
  stopped : Worker
  idle : Worker
  busy : CaptureRequest → Worker

-- `asyncio.Queue`, with the count of its unfinished tasks, and the worker.
pub record Capture : Type 0 where
  pub queue : List CaptureRequest
  pub unfinished : ℕ
  pub worker : Worker

abbrev pub empty_queue : Capture
empty_queue = record { queue = []; unfinished = 0; worker = stopped }

-- `self.queue.put_nowait(request)`, with false for a `QueueFull`
unfoldable pub put_nowait : ℕ → CaptureRequest → Capture → Bool × Capture
put_nowait maxsize request c =
    if ltb (length c.queue) maxsize
    then (true, record c { queue = c.queue ++ request ∷ []; unfinished = suc c.unfinished })
    else (false, c)

-- The rest of `enqueue` for a request, by what its question was answered; an error is raised on.
unfoldable pub go_on :
    ℕ → CaptureRequest → Result Error Bool → Capture → Result Error Bool × Capture
unfolding put_nowait
go_on maxsize request (raise e) c = (raise e, c)
go_on maxsize request (ok false) c = (ok false, c)
go_on maxsize request (ok true) c = let (added, d) = put_nowait maxsize request c in (ok added, d)

-- `await self.queue.get()` in the worker
unfoldable pub get_next : Capture → Capture
get_next c = elim c.worker [
  | idle ↦ elim c.queue [
    | [] ↦ c
    | request ∷ rest ↦ record c { queue = rest; worker = busy request }
  ]
  | _ ↦ c
]

-- `self.queue.task_done()`, and the worker at the head of its loop
unfoldable pub task_done : Capture → Capture
task_done c = record c { unfinished = c.unfinished - 1; worker = idle }

-- `close()`: the worker is cancelled; a request that it was at work on is done.
unfoldable pub close : Capture → Capture
close c = elim c.worker [
  | busy request ↦ record c { unfinished = c.unfinished - 1; worker = stopped }
  | _ ↦ record c { worker = stopped }
]

module _ (s : MemoryService) where
  unfoldable pub start : Capture → Capture
  start c =
      if s.config.automatic.enabled && s.config.automatic.capture
      then record c { worker = idle }
      else c

  -- The question of `enqueue`: whether it goes on to the insertion.
  unfoldable pub may_enqueue : CaptureRequest → Method s Bool
  unfolding can_capture strip
  may_enqueue request =
      if is_empty (strip request.user_text)
      then pure false
      else can_capture s request.principal_id request.experience request.capability

  -- What the worker does with a request, by the answer of the extractor: an exception is logged, and
  -- what was written before it stays. `sha256` is the printed digest of a text.
  unfoldable pub handle_request :
      (String → String)
      → CaptureRequest
      → Result Error (List Fields)
      → World s.provider.State
      → World s.provider.State
  unfolding add_automatic_candidates add_proposals
  handle_request sha256 request (raise e) w = w
  handle_request sha256 request (ok candidates) w =
      let chat_hash = case_option (truthy_text request.chat_id) none (λ chat. some (sha256 chat)) in
      elim s.config.automatic.capture_mode [
        | automatic ↦
            (add_automatic_candidates s request.principal_id candidates request.experience w).1
        | review ↦
            (add_proposals s request.principal_id candidates request.experience chat_hash w).1
      ]
