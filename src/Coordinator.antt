-- ===== src/Coordinator.antt =====
-- services/gateway/src/local_ai_hub/coordinator.py: the models of one llama.cpp router. The
-- router, the network to it and the clock are a parameter with a state of its own.
pub mod Waiting
pub mod Switching
pub mod Ending
pub mod Readiness
use agent_ui.Prelude.{
  ℕ, zero, suc, ◌+◌, String, Bool, true, false, ◌&&◌, ◌||◌, not, List, [], ◌∷◌, Option, none, some,
  Result, ok, raise, and_then, Exec, pure, throw, lift, ◌>>=◌, ◌>>◌, case_option, find, contains,
  ltb, ◌==◌, string_eq, if◌then◌else◌, is_some,
}
use agent_ui.Prelude.Dict.{Dict, get, put}
use agent_ui.Prelude.Text.{is_empty}
use agent_ui.Prelude.Json.{Value, Fields, Items, str, arr, obj, nil, cons, end, get_field, truthy}
use agent_ui.Host.{Host}
use agent_ui.Catalog.{CoordinatorMode, explicit}

pub record ModelStatus : Type 0 where
  pub model_id : String
  pub value : String
  pub failed : Bool
  pub exit_code : Option Value

-- A request that fails raises with a text: an error of HTTP or of its status, or no JSON.
pub record Router : Type 1 where
  pub State : Type 0
  -- `GET /models`, with `reload=1` or without
  pub get_models : Bool → Exec State String Value
  pub post_unload : String → Exec State String Unit
  pub post_load : String → Exec State String Unit
  -- `time.monotonic()`, and `asyncio.sleep` for the polling interval
  pub monotonic : State → ℕ
  pub sleep : State → State

-- `out_of_fuel` is no error of the source.
pub data CoordinationError : Type 0 where
  list_failed transition_failed : String → CoordinationError
  not_advertised : String → CoordinationError
  model_failed : String → Option Value → CoordinationError
  timed_out : String → String → CoordinationError
  no_lock out_of_fuel : CoordinationError

abbrev status_of : Host → String → Fields → ModelStatus
status_of h id status = record {
  model_id = id;
  value = case_option (get_field "value" status) "unknown" (λ v. printed h v);
  failed = case_option (get_field "failed" status) false truthy;
  exit_code = get_field "exit_code" status;
}
  where
    printed : Host → Value → String
    printed h (str s) = s
    printed h v = h.value_text v

-- `record.get("status") or {}`, an object
unfoldable pub status_field : Fields → Result String Fields
unfolding get_field
status_field fields = case_option (get_field "status" fields) (ok end) (λ v. as_object v)
  where
    as_object : Value → Result String Fields
    as_object (obj fs) = ok fs
    as_object v = if truthy v then raise "model status must be an object" else ok end

unfoldable pub parse_record : Host → Value → Result String ModelStatus
unfolding status_field
parse_record h (obj fields) =
    and_then (status_field fields) (λ status. named status (get_field "id" fields))
  where
    named : Fields → Option Value → Result String ModelStatus
    named status (some (str id)) =
        if is_empty id
        then raise "model record is missing a string id"
        else ok (status_of h id status)
    named status _ = raise "model record is missing a string id"
parse_record h v = raise "model records must be objects"

unfoldable pub parse_records : Host → Items → Result String (List ModelStatus)
unfolding parse_record
parse_records h nil = ok []
parse_records h (cons v vs) =
    and_then (parse_record h v) λ status. and_then (parse_records h vs) λ later. ok (status ∷ later)

unfoldable pub parse_payload : Host → Value → Result String (List ModelStatus)
unfolding parse_records
parse_payload h (obj fields) = data_of (get_field "data" fields)
  where
    data_of : Option Value → Result String (List ModelStatus)
    data_of none = ok []
    data_of (some (arr items)) = parse_records h items
    data_of (some v) = raise "response must contain a data array"
parse_payload h v = raise "response must contain a data array"

abbrev pub is_ready : String → Bool
is_ready value = value == "loaded" || value == "sleeping"

abbrev pub is_unloaded : String → Bool
is_unloaded value = value == "unloaded"

abbrev pub is_active : String → Bool
is_active value = value == "loaded" || value == "loading" || value == "sleeping"

-- `{status.model_id: status for status in statuses}`
unfoldable pub by_id : List ModelStatus → Dict String ModelStatus → Dict String ModelStatus
by_id [] d = d
by_id (status ∷ statuses) d = by_id statuses (put status.model_id status d)

-- `LlamaModelCoordinator.__init__`; `has_lock` tells that `transition_lock` is not `None`.
pub record Coordinator : Type 1 where
  pub host : Host
  pub router : Router
  pub mode : CoordinatorMode
  pub timeout : ℕ
  pub has_lock : Bool

module _ (c : Coordinator) where
  abbrev pub Action : Type 0 → Type 0
  Action A = Exec c.router.State CoordinationError A

  abbrev pub wrapped :
      {A : Type 0} → (String → CoordinationError) → Result String A → Result CoordinationError A
  wrapped wrap (ok a) = ok a
  wrapped wrap (raise e) = raise (wrap e)

  unfoldable pub list_models : Bool → Action (List ModelStatus)
  unfolding parse_payload
  list_models reload s =
      let (r, t) = c.router.get_models reload s in
      (wrapped list_failed (and_then r (parse_payload c.host)), t)

  -- `self.client.post(...)` and `raise_for_status`, within `ensure_loaded`
  unfoldable pub posted : String → Exec c.router.State String Unit → Action Unit
  posted target request s = let (r, t) = request s in (wrapped (λ e. transition_failed target) r, t)

  -- The end of one round of `_wait_for`.
  abbrev pub judged : String → (String → Bool) → Option ModelStatus → Action Unit → Action Unit
  judged model expected none again = again
  judged model expected (some status) again =
      if status.failed
      then throw (model_failed model status.exit_code)
      else if expected status.value
      then pure tt
      else again

  abbrev pub last_value : Option ModelStatus → String
  last_value o = case_option o "missing" (λ status. status.value)

  abbrev pub is_model : String → ModelStatus → Bool
  is_model model status = status.model_id == model

  -- The loop of `_wait_for`, on fuel; `last` is the status that was seen last.
  unfoldable pub wait_loop : ℕ → String → (String → Bool) → ℕ → Option ModelStatus → Action Unit
  unfolding list_models
  wait_loop zero model expected deadline last s = throw out_of_fuel s
  wait_loop (suc fuel) model expected deadline last s =
      if ltb (c.router.monotonic s) deadline
      then (list_models false >>= λ statuses.
            let seen = find (is_model model) statuses in
            judged model expected seen
              (λ t. wait_loop fuel model expected deadline seen (c.router.sleep t)))
          s
      else throw (timed_out model (last_value last)) s

  -- `_wait_for`; each round lets the clock go on, so the timeout bounds the rounds.
  unfoldable pub wait_for : String → (String → Bool) → Action Unit
  unfolding wait_loop
  wait_for model expected s =
      wait_loop (suc c.timeout) model expected (c.router.monotonic s + c.timeout) none s

  -- The loop that unloads the other models.
  unfoldable pub unload_others : String → List ModelStatus → Action Unit
  unfolding posted wait_for
  unload_others target [] = pure tt
  unload_others target (status ∷ statuses) =
      let rest = unload_others target statuses in
      if status.model_id == target || not (is_active status.value) then rest else do
        posted target (c.router.post_unload status.model_id)
        wait_for status.model_id is_unloaded
        rest

  unfoldable pub load_target : String → Action Unit
  unfolding posted wait_for
  load_target target = do posted target (c.router.post_load target); wait_for target is_ready

  -- The two listings at the start of `ensure_loaded`.
  unfoldable pub listed : String → Action (List ModelStatus)
  unfolding list_models by_id
  listed target = list_models false >>= λ statuses.
      if is_some (get target (by_id statuses [])) then pure statuses else list_models true

  unfoldable pub switch : String → List ModelStatus → Action Unit
  unfolding unload_others load_target
  switch target statuses = unload_others target statuses >> load_target target

  abbrev pub transition : String → List ModelStatus → Option ModelStatus → Action Unit
  transition target statuses none = throw (not_advertised target)
  transition target statuses (some status) =
      if is_ready status.value && not status.failed
      then pure tt
      else if status.value == "loading" && not status.failed
      then wait_for target is_ready
      else switch target statuses

  unfoldable pub ensure_loaded : String → Action Unit
  unfolding listed switch by_id
  ensure_loaded target = elim c.mode [
    | explicit ↦
        if c.has_lock
        then (listed target >>= λ statuses.
            transition target statuses (get target (by_id statuses [])))
        else throw no_lock
    | _ ↦ pure tt
  ]
