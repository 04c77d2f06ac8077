-- ===== src/CaptureQueue/Store.antt =====
-- What the capture queue of memory_capture.py hands to the provider, together with the routes.
use agent_ui.Prelude.{
  String, false, List, [], ◌∷◌, Option, none, some, ◌≡◌, refl, Result, ok, raise, any, case_option,
}
use agent_ui.Prelude.Keeps.{Keeps, Keeps-pure, Keeps-if}
use agent_ui.Prelude.Json.{Fields}
use agent_ui.Prelude.Text.{is_empty, strip}
use agent_ui.MemoryConfig.{CaptureMode, review, automatic}
use agent_ui.Catalog.{truthy_text}
use agent_ui.Provider.{Error}
use agent_ui.Service.World.{MemoryService, World}
use agent_ui.Service.Closed.Methods.{can_capture-Keeps}
use agent_ui.Service.Closed.Calls.{Call, perform_all, perform}
use agent_ui.Service.Guarantees.{ProviderKeeps, perform_all-store, store-IsClosed}
use agent_ui.CaptureQueue.{CaptureRequest, Capture, may_enqueue, handle_request}
use agent_ui.CaptureQueue.Runs.{Asking, Run}

module _ (s : MemoryService) (sha256 : String → String) (Q : s.provider.State → Type 0)
    (keeps : ProviderKeeps s Q) where
  abbrev Stores : World s.provider.State → Type 0
  Stores w = Q w.store

  may_enqueue-Keeps : (request : CaptureRequest) → Keeps Stores (may_enqueue s request)
  unfolding may_enqueue
  may_enqueue-Keeps request =
      Keeps-if (is_empty (strip request.user_text)) _ _ (λ _. Keeps-pure false)
        λ _.
          can_capture-Keeps s Stores (store-IsClosed s Q keeps) request.principal_id
            request.experience request.capability

  abbrev chat_digest : CaptureRequest → Option String
  chat_digest request = case_option (truthy_text request.chat_id) none (λ chat. some (sha256 chat))

  handle_request-store :
      (request : CaptureRequest) (answer : Result Error (List Fields)) (w : World s.provider.State)
      → Stores w
      → Stores (handle_request s sha256 request answer w)
  unfolding handle_request perform_all perform any
  handle_request-store request (raise e) w held = held
  handle_request-store request (ok candidates) w held = by-mode s.config.automatic.capture_mode refl
    where
      by-mode :
          (mode : CaptureMode)
          → s.config.automatic.capture_mode ≡ mode
          → Stores (handle_request s sha256 request (ok candidates) w)
      by-mode automatic at =
          rw (at, handle_request)
            (perform_all-store s Q
              (Call.add_automatic_candidates request.principal_id candidates request.experience
                ∷ [])
              w keeps refl held)
      by-mode review at =
          rw (at, handle_request)
            (perform_all-store s Q
              (Call.add_proposals request.principal_id candidates request.experience
                  (chat_digest request)
                ∷ [])
              w keeps refl held)

  -- Whatever the provider keeps where it is given no probable secret holds after every run of the
  -- queue, its worker and the routes, where the routes take no game event.
  pub run-store :
      {w v : World s.provider.State} {asking queued : List (Asking s)} {taken : List CaptureRequest}
      {c : Capture}
      → Run s sha256 w asking queued taken c v
      → Q w.store
      → Q v.store
  run-store Run.begin held = held
  run-store (Run.starts no_worker run) held = run-store run held
  run-store (Run.asks {v = v} request run) held =
      (may_enqueue-Keeps request).at v (run-store run held)
  run-store (Run.goes_on later a earlier run) held = run-store run held
  run-store (Run.takes request rest waits next run) held = run-store run held
  run-store (Run.finishes {v = v} request answer works run) held =
      handle_request-store request answer v (run-store run held)
  run-store (Run.closes run) held = run-store run held
  run-store (Run.serves {v = v} calls plain run) held =
      perform_all-store s Q calls v keeps plain (run-store run held)
