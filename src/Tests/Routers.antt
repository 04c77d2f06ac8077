-- ===== src/Tests/Routers.antt =====
-- The theorems on the coordinator, for a router with two models that holds one at a time.
use agent_ui.Prelude.{
  ℕ, suc, String, Bool, true, false, List, [], ◌∷◌, Option, none, some, ◌≡◌, ◌≢◌, refl, arith,
  string_eq, option_eq, eq_iff, ◌==◌, if◌then◌else◌, ok, raise, Result, All, subst, find, ◌>>=◌,
}
use agent_ui.Prelude.Json.{Value, str, arr, obj, nil, cons, end, field, get_field}
use agent_ui.Prelude.Dict.{get, put}
use agent_ui.Catalog.{explicit}
use agent_ui.Coordinator.{
  ModelStatus, Router, Coordinator, CoordinationError, out_of_fuel, list_models, is_active,
  is_ready, wait_for, switch, ensure_loaded,
}
use agent_ui.Coordinator.Waiting.{ClockLaws, wait_for-Ends, IsSeen, wait_for-IsSeen}
use agent_ui.Coordinator.Switching.{RouterLaws, switch-OthersIdle}
use agent_ui.Coordinator.Ending.{ensure_loaded_ends}
use agent_ui.Coordinator.Readiness.{IsReady, ensure_loaded-IsReady}
use agent_ui.Tests.Demo.{machine}

-- The model that is held, and the time.
abbrev Held : Type 0
Held = Option String × ℕ

abbrev state_of : Held → String → String
state_of s m = if s.0 == some m then "loaded" else "unloaded"

abbrev row : Held → String → Value
row s m =
    obj (field "id" (str m) (field "status" (obj (field "value" (str (state_of s m)) end)) end))

abbrev router : Router
router = record {
  State = Held;
  get_models =
      λ reload s. (ok (obj (field "data" (arr (cons (row s "a") (cons (row s "b") nil))) end)), s);
  post_unload = λ m s. (ok tt, (if s.0 == some m then none else s.0, s.1));
  post_load = λ m s. (ok tt, (some m, s.1));
  monotonic = λ s. s.1;
  sleep = λ s. (s.0, suc s.1);
}

abbrev coordinator : Coordinator
coordinator = record {
  host = machine;
  router = router;
  mode = explicit;
  timeout = 3;
  has_lock = true;
}

clock_laws : ClockLaws router
clock_laws = record { listing_later = λ reload s. omega arith; sleep_ticks = λ s. omega arith }

wait_for-Ends_example : (wait_for coordinator "a" is_ready (some "b", 0)).0 ≢ raise out_of_fuel
wait_for-Ends_example = wait_for-Ends coordinator clock_laws "a" is_ready (some "b", 0)

late_run :
    (wait_for coordinator "a" is_ready (some "b", 0)).0
    ≡ raise (CoordinationError.timed_out "a" "unloaded")
unfolding wait_for ◌>>=◌ get_field find
late_run = refl

seen_run : wait_for coordinator "b" is_ready (some "b", 0) ≡ (ok tt, (some "b", 0))
unfolding wait_for ◌>>=◌ get_field find
seen_run = refl

wait_for-IsSeen_example : IsSeen coordinator "b" is_ready (some "b", 0)
wait_for-IsSeen_example =
    wait_for-IsSeen coordinator "b" is_ready (some "b", 0) (some "b", 0) seen_run

abbrev Idle : String → Held → Type 0
Idle m s = (s.0 == some m) ≡ false

abbrev shown : Held → List ModelStatus
shown s =
    (record { model_id = "a"; value = state_of s "a"; failed = false; exit_code = none })
    ∷ (record { model_id = "b"; value = state_of s "b"; failed = false; exit_code = none })
    ∷ []

abbrev Right : Result CoordinationError (List ModelStatus) × Held → Type 0
Right (ok statuses, t) =
    All (λ status. is_active status.value ≡ false → Idle status.model_id t) statuses
Right (raise e, t) = Unit

inactive : (held : Bool) → is_active (if held then "loaded" else "unloaded") ≡ false → held ≡ false
inactive true h = absurd (ground arith)
inactive false h = refl

shown-Right : (s : Held) → Right (ok (shown s), s)
shown-Right s = (inactive (s.0 == some "a"), (inactive (s.0 == some "b"), tt))

listing_run : (reload : Bool) (s : Held) → list_models coordinator reload s ≡ (ok (shown s), s)
unfolding list_models get_field
listing_run reload s = refl

router_laws : RouterLaws coordinator Idle
router_laws = record {
  honest = λ reload s t statuses h. subst Right h (rw (listing_run reload s) (shown-Right s));
  listing_keeps = λ m reload s idle. idle;
  unloading_keeps = λ m other s idle. ground (arith, idle);
  loading_keeps = λ m other s ne idle. ground (arith, ne, eq_iff other m);
  sleeping_keeps = λ m s idle. idle;
}

switch_run : switch coordinator "a" (shown (some "b", 0)) (some "b", 0) ≡ (ok tt, (some "a", 0))
unfolding switch ◌>>=◌ get_field find
switch_run = refl

switch-OthersIdle_example :
    All (λ status. status.model_id ≢ "a" → Idle status.model_id (some "a", 0)) (shown (some "b", 0))
switch-OthersIdle_example =
    switch-OthersIdle coordinator Idle router_laws "a" false (some "b", 0) (some "b", 0)
      (some "a", 0) (shown (some "b", 0)) (listing_run false (some "b", 0)) switch_run

ensure_loaded_ends_example : (ensure_loaded coordinator "c" (some "b", 0)).0 ≢ raise out_of_fuel
ensure_loaded_ends_example = ensure_loaded_ends coordinator clock_laws "c" (some "b", 0)

loaded_run : ensure_loaded coordinator "a" (some "b", 0) ≡ (ok tt, (some "a", 0))
unfolding ensure_loaded ◌>>=◌ get_field find get put
loaded_run = refl

ensure_loaded-IsReady_example : IsReady coordinator "a" (some "a", 0)
ensure_loaded-IsReady_example =
    ensure_loaded-IsReady coordinator "a" (some "b", 0) (some "a", 0) refl loaded_run
