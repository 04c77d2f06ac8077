-- ===== src/Coordinator/Waiting.antt =====
-- The loop of `_wait_for`.
use agent_ui.Prelude.{
  ℕ, zero, suc, ◌+◌, ◌≤◌, ◌<◌, String, Bool, true, false, List, Option, none, some, ◌≡◌, ◌≢◌, refl,
  arith, string_eq, Bool-cases, inl, inr, ok, raise, Result, find, ltb, ltb→lt, continue, and_then,
  ◌>>=◌, pure, throw,
}
use agent_ui.Prelude.Bind.{>>=-Ran}
use agent_ui.Coordinator.{
  ModelStatus, Router, Coordinator, CoordinationError, out_of_fuel, list_failed, list_models,
  is_model, wait_loop, wait_for, wrapped, judged, Action, parse_payload,
}

-- The clock never goes back, and a sleep takes at least one tick.
pub record ClockLaws (r : Router) : Type 0 where
  pub listing_later :
      (reload : Bool) (s : r.State) → r.monotonic s ≤ r.monotonic (r.get_models reload s).1
  pub sleep_ticks : (s : r.State) → r.monotonic s < r.monotonic (r.sleep s)

module _ (c : Coordinator) (laws : ClockLaws c.router) where
  abbrev Ends : Result CoordinationError (Unit {0}) → Type 0
  Ends r = r ≢ raise out_of_fuel

  judged-Ends :
      (model : String) (expected : String → Bool) (seen : Option ModelStatus)
      (again : Action c Unit) (t : c.router.State)
      → Ends (again t).0
      → Ends (judged c model expected seen again t).0
  unfolding throw pure
  judged-Ends model expected none again t h = h
  judged-Ends model expected (some status) again t h = ground (arith, h)

  listing-Ends :
      (r : Result String (List ModelStatus)) (f : List ModelStatus → Action c Unit)
      (t : c.router.State)
      → ((statuses : List ModelStatus) → Ends (f statuses t).0)
      → Ends (continue (wrapped c list_failed r) f t).0
  listing-Ends (raise e) f t each = ground arith
  listing-Ends (ok statuses) f t each = each statuses

  -- Fuel above the time that is left is enough.
  wait_loop-Ends :
      (fuel : ℕ) (model : String) (expected : String → Bool) (deadline : ℕ)
      (last : Option ModelStatus) (s : c.router.State)
      → deadline ≤ c.router.monotonic s + fuel
      → Ends (wait_loop c (suc fuel) model expected deadline last s).0
  unfolding wait_loop list_models ◌>>=◌
  wait_loop-Ends zero model expected deadline last s enough =
      elim (Bool-cases (ltb (c.router.monotonic s) deadline)) [
        | inr late ↦ rw late (λ h. ground arith)
        | inl early ↦ absurd (omega (arith, ltb→lt (c.router.monotonic s) deadline early))
      ]
  wait_loop-Ends (suc left) model expected deadline last s enough =
      let t = (c.router.get_models false s).1 in
      let before = laws.listing_later false s in
      let ticked = laws.sleep_ticks t in
      elim (Bool-cases (ltb (c.router.monotonic s) deadline)) [
        | inr late ↦ rw late (λ h. ground arith)
        | inl early ↦ rw early (
            listing-Ends (and_then (c.router.get_models false s).0 (parse_payload c.host)) _ t
              (λ statuses.
                let seen = find (is_model c model) statuses in
                judged-Ends model expected seen _ t (
                  wait_loop-Ends left model expected deadline seen (c.router.sleep t)
                    (omega (arith, before, ticked)))))
      ]

  -- The wait for a model always ends: within the timeout it returns, raises or times out, when the
  -- clock never goes back and a sleep takes time.
  pub wait_for-Ends :
      (model : String) (expected : String → Bool) (s : c.router.State)
      → Ends (wait_for c model expected s).0
  unfolding wait_for
  wait_for-Ends model expected s =
      wait_loop-Ends c.timeout model expected (c.router.monotonic s + c.timeout) none s
        (omega arith)

-- A listing that shows the model as expected, which left the state `v`.
pub record IsSeen (c : Coordinator) (model : String) (expected : String → Bool) (v : c.router.State)
    : Type 0 where
  pub before : c.router.State
  pub statuses : List ModelStatus
  pub status : ModelStatus
  pub answer : list_models c false before ≡ (ok statuses, v)
  pub found : find (is_model c model) statuses ≡ some status
  pub sound : status.failed ≡ false
  pub as_expected : expected status.value ≡ true

module _ (c : Coordinator) (model : String) (expected : String → Bool) where
  abbrev Returned : Result CoordinationError (Unit {0}) × c.router.State → c.router.State → Type 0
  Returned r v = r ≡ (ok tt, v)

  judged-IsSeen :
      (before : c.router.State) (statuses : List ModelStatus) (seen : Option ModelStatus)
      (again : Action c Unit) (t v : c.router.State)
      → list_models c false before ≡ (ok statuses, t)
      → find (is_model c model) statuses ≡ seen
      → (again t ≡ (ok tt, v) → IsSeen c model expected v)
      → judged c model expected seen again t ≡ (ok tt, v)
      → IsSeen c model expected v
  unfolding throw pure
  judged-IsSeen before statuses none again t v answer found later h = later h
  judged-IsSeen before statuses (some status) again t v answer found later h =
      elim (Bool-cases status.failed) [
        | inl failed ↦ absurd (ground (arith, rw failed at h))
        | inr sound ↦ elim (Bool-cases (expected status.value)) [
          | inr other ↦ later (rw (sound, other) at h)
          | inl meets ↦
              let same : t ≡ v = ground (arith, rw (sound, meets) at h) in
              record {
                before = before;
                statuses = statuses;
                status = status;
                answer = rw (← same) answer;
                found = found;
                sound = sound;
                as_expected = meets;
              }
        ]
      ]

  wait_loop-IsSeen :
      (fuel deadline : ℕ) (last : Option ModelStatus) (s v : c.router.State)
      → wait_loop c fuel model expected deadline last s ≡ (ok tt, v)
      → IsSeen c model expected v
  unfolding wait_loop throw
  wait_loop-IsSeen zero deadline last s v h = absurd (ground arith)
  wait_loop-IsSeen (suc fuel) deadline last s v h =
      elim (Bool-cases (ltb (c.router.monotonic s) deadline)) [
        | inr late ↦ absurd (ground (arith, rw late at h))
        | inl early ↦
            let ran = >>=-Ran (list_models c false) _ s tt v (rw early at h) in
            judged-IsSeen s ran.value (find (is_model c model) ran.value) _ ran.between v ran.first
              refl (λ again. wait_loop-IsSeen fuel deadline _ _ v again) ran.rest
      ]

  -- A wait that returns ended with a listing that shows the model in an expected state, and not
  -- failed.
  pub wait_for-IsSeen :
      (s v : c.router.State) → wait_for c model expected s ≡ (ok tt, v) → IsSeen c model expected v
  unfolding wait_for
  wait_for-IsSeen s v h =
      wait_loop-IsSeen (suc c.timeout) (c.router.monotonic s + c.timeout) none s v h
