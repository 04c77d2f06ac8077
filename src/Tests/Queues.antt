-- ===== src/Tests/Queues.antt =====
-- The theorems on the capture queue, the leases of a GPU and the registry of backends at concrete
-- runs.
use agent_ui.Prelude.{
  String, true, false, List, [], ◌∷◌, All, some, ◌≡◌, refl, arith, ok, raise, string_eq, nat_eq,
  contains, ◌>>=◌,
}
use agent_ui.Prelude.Text.{is_space, strip}
use agent_ui.Prelude.Dict.{Dict, get}
use agent_ui.Prelude.Json.{Fields, str, field, end}
use agent_ui.Service.World.{World, reading}
use agent_ui.Repository.Spaces
use agent_ui.CaptureQueue.{
  CaptureRequest, Capture, empty_queue, start, put_nowait, go_on, get_next, task_done, may_enqueue,
  handle_request,
}
use agent_ui.CaptureQueue.Runs.{Asking, Run}
use agent_ui.CaptureQueue.Order.{IsInOrder, IsAllowed, Run-IsInOrder}
use agent_ui.CaptureQueue.Store.{run-store}
use agent_ui.GpuGate.{Gate, Gauges, no_tasks, new_gate, remove, ask, give, enter}
use agent_ui.GpuGate.Runs.{Step, Reached, IsBounded, all_waiting, all_holding, Reached-IsCounted}
use agent_ui.Catalog.{Backend}
use agent_ui.Backends.{BackendSettings, build, get_runtime}
use agent_ui.Catalog.{off}
use agent_ui.Backends.Answers.{IsAnswer, build-IsAnswer}
use agent_ui.Tests.Demo.{service, machine, new_world}
use agent_ui.Tests.Services.{Clean, log-keeps}
use agent_ui.Tests.Choices.{local}

abbrev request : CaptureRequest
request = record {
  principal_id = "alice";
  experience = "chat";
  capability = some "chat";
  user_text = "I like tea";
  chat_id = some "room";
}

abbrev digest : String → String
digest s = s

abbrev asked : World (List String)
asked = (may_enqueue service request new_world).1

abbrev asking : Asking service
asking = record { request = request; before = new_world; answer = ok true }

asking_answer : (may_enqueue service request new_world).0 ≡ ok true
unfolding may_enqueue strip is_space get contains ◌>>=◌ reading Spaces.get_settings
asking_answer = refl

abbrev started : Capture
started = start service empty_queue

abbrev filled : Capture
filled = (put_nowait 8 request started).1

abbrev at_work : Capture
at_work = get_next filled

abbrev answer : List Fields
answer = field "content" (str "likes tea") end ∷ field "content" (str "password: hunter2") end ∷ []

abbrev finished : World (List String)
finished = handle_request service digest request (ok answer) asked

one-Run : Run service digest new_world [] (asking ∷ []) (request ∷ []) (task_done at_work) finished
unfolding start go_on put_nowait get_next may_enqueue strip is_space get contains ◌>>=◌ reading
    Spaces.get_settings
one-Run = Run.finishes request (ok answer) refl (
    Run.takes request [] refl refl
      (Run.goes_on [] asking [] (Run.asks request (Run.starts refl Run.begin))))

Run-IsInOrder_example :
    IsInOrder service (asking ∷ []) (request ∷ []) (task_done at_work)
    × All (IsAllowed service digest new_world) (asking ∷ [])
Run-IsInOrder_example = Run-IsInOrder service digest new_world one-Run

run-store_example : Clean finished.store
run-store_example = run-store service digest Clean log-keeps one-Run tt

-- Two gates: a task inside of the first, one that waits there, and one inside of the second.
abbrev gauges : Gauges
gauges = record { waiters = 1; in_flight = 2 }

abbrev gates : List Gate
gates =
    record { free = 0; waiting = 8 ∷ []; given = []; holding = 7 ∷ [] }
    ∷ record { free = 0; waiting = []; given = []; holding = 9 ∷ [] }
    ∷ []

abbrev second : Gate
second = record { free = 0; waiting = []; given = []; holding = 9 ∷ [] }

three_tasks : Reached 1 gauges gates
unfolding contains ask give enter remove
three_tasks = Reached.moves [] _ (second ∷ []) _ (Step.asks _ _ 8) (
    Reached.moves [] _ (second ∷ []) _ (Step.enters _ _ 7 refl) (
      Reached.moves [] _ (second ∷ []) _ (Step.gives _ _ 7 refl (omega arith)) (
        Reached.moves [] (new_gate 1) (second ∷ []) _ (Step.asks _ _ 7) (
          Reached.moves (new_gate 1 ∷ []) _ [] _ (Step.enters _ _ 9 refl) (
            Reached.moves (new_gate 1 ∷ []) _ [] _ (Step.gives _ _ 9 refl (omega arith)) (
              Reached.moves (new_gate 1 ∷ []) (new_gate 1) [] _ (Step.asks no_tasks _ 9)
                (Reached.creates (Reached.creates Reached.begin))))))))

Reached-IsCounted_example :
    (gauges.waiters ≡ all_waiting gates)
    × (gauges.in_flight ≡ all_holding gates)
    × All (IsBounded 1) gates
Reached-IsCounted_example = Reached-IsCounted three_tasks

abbrev settings : BackendSettings
settings = record { llama_base_url = ""; llama_api_key = "key"; model_coordinator_mode = off }

abbrev backends : Dict String Backend
backends = ("local", local) ∷ ("spare", record local { enabled = false }) ∷ []

build-IsAnswer_example :
    IsAnswer machine settings backends "spare"
      (get_runtime machine settings "spare" (build machine settings backends))
unfolding get
build-IsAnswer_example = build-IsAnswer machine settings backends "spare" (refl, (refl, tt))

spare_refused :
    get_runtime machine settings "spare" (build machine settings backends) ≡ raise "disabled"
unfolding get_runtime build get
spare_refused = refl
