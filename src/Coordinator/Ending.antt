-- ===== src/Coordinator/Ending.antt =====
-- The end of a call of `ensure_loaded`.
use agent_ui.Prelude.{
  String, Bool, true, false, List, [], ◌∷◌, Option, none, some, ◌≢◌, arith, string_eq,
  if◌then◌else◌, ok, raise, Result, ◌>>=◌, pure, throw, continue, and_then, Exec,
}
use agent_ui.Prelude.Dict.{get}
use agent_ui.Catalog.{CoordinatorMode, explicit, autoload, off}
use agent_ui.Coordinator.{
  ModelStatus, Coordinator, CoordinationError, out_of_fuel, no_lock, not_advertised, list_failed,
  transition_failed, list_models, wait_for, wrapped, Action, is_unloaded, is_ready, posted,
  unload_others, load_target, switch, listed, by_id, transition, ensure_loaded, parse_payload,
}
use agent_ui.Coordinator.Waiting.{ClockLaws, wait_for-Ends}

-- The action never runs out of fuel.
record Finishes (c : Coordinator) {A : Type 0} (m : Action c A) : Type 0 where
  pub at : (s : c.router.State) → (m s).0 ≢ raise out_of_fuel

module _ (c : Coordinator) where
  bind-Finishes :
      {A B : Type 0} (m : Action c A) (f : A → Action c B)
      → Finishes c m
      → ((a : A) → Finishes c (f a))
      → Finishes c (m >>= f)
  unfolding ◌>>=◌
  bind-Finishes {A} {B} m f k each = record { at = λ s. rest (m s).0 (m s).1 (k.at s) }
    where
      rest :
          (r : Result CoordinationError A) (t : c.router.State)
          → r ≢ raise out_of_fuel
          → (continue r f t).0 ≢ raise out_of_fuel
      rest (ok a) t other h = (each a).at t h
      rest (raise e) t other h = other (ground (arith, h))

  if_Finishes :
      {A : Type 0} (b : Bool) (m n : Action c A)
      → Finishes c m
      → Finishes c n
      → Finishes c (if b then m else n)
  if_Finishes true m n k l = k
  if_Finishes false m n k l = l

  wrapped-Finishes :
      {A : Type 0} (wrap : String → CoordinationError) (r : Result String A)
      → ((e : String) → wrap e ≢ out_of_fuel)
      → wrapped c wrap r ≢ raise out_of_fuel
  wrapped-Finishes wrap (ok a) other h = ground arith
  wrapped-Finishes wrap (raise e) other h = other e (ground (arith, h))

  list_models-Finishes : (reload : Bool) → Finishes c (list_models c reload)
  unfolding list_models
  list_models-Finishes reload = record {
    at = λ s.
        wrapped-Finishes list_failed
          (and_then (c.router.get_models reload s).0 (parse_payload c.host)) (λ e h. ground arith);
  }

  pure-Finishes : {A : Type 0} (a : A) → Finishes c (pure a)
  unfolding pure
  pure-Finishes a = record { at = λ s h. ground arith }

  throw-Finishes :
      {A : Type 0} (e : CoordinationError) → e ≢ out_of_fuel → Finishes c (throw {A = A} e)
  unfolding throw
  throw-Finishes e other = record { at = λ s h. other (ground (arith, h)) }

  posted-Finishes :
      (target : String) (request : Exec c.router.State String Unit)
      → Finishes c (posted c target request)
  unfolding posted
  posted-Finishes target request = record {
    at = λ s. wrapped-Finishes (λ e. transition_failed target) (request s).0 (λ e h. ground arith);
  }

module _ (c : Coordinator) (laws : ClockLaws c.router) where
  waiting-Finishes :
      (model : String) (expected : String → Bool) → Finishes c (wait_for c model expected)
  waiting-Finishes model expected = record { at = wait_for-Ends c laws model expected }

  unload_others-Finishes :
      (target : String) (statuses : List ModelStatus) → Finishes c (unload_others c target statuses)
  unfolding unload_others
  unload_others-Finishes target [] = pure-Finishes c tt
  unload_others-Finishes target (status ∷ statuses) =
      let rest = unload_others-Finishes target statuses in
      if_Finishes c _ _ _ rest (
        bind-Finishes c _ _ (posted-Finishes c target (c.router.post_unload status.model_id))
          (λ u. bind-Finishes c _ _ (waiting-Finishes status.model_id is_unloaded) (λ v. rest)))

  switch-Finishes :
      (target : String) (statuses : List ModelStatus) → Finishes c (switch c target statuses)
  unfolding switch load_target
  switch-Finishes target statuses =
      bind-Finishes c _ _ (unload_others-Finishes target statuses) (λ u.
        bind-Finishes c _ _ (posted-Finishes c target (c.router.post_load target))
          (λ v. waiting-Finishes target is_ready))

  transition-Finishes :
      (target : String) (statuses : List ModelStatus) (o : Option ModelStatus)
      → Finishes c (transition c target statuses o)
  transition-Finishes target statuses none =
      throw-Finishes c (not_advertised target) (λ h. ground arith)
  transition-Finishes target statuses (some status) =
      if_Finishes c _ _ _ (pure-Finishes c tt)
        (if_Finishes c _ _ _ (waiting-Finishes target is_ready) (switch-Finishes target statuses))

  listed-Finishes : (target : String) → Finishes c (listed c target)
  unfolding listed
  listed-Finishes target =
      bind-Finishes c _ _ (list_models-Finishes c false)
        (λ statuses. if_Finishes c _ _ _ (pure-Finishes c statuses) (list_models-Finishes c true))

  -- Every call of `ensure_loaded` comes to an end without running out of fuel, in each mode and
  -- whatever the router answers, when the clock never goes back and a sleep takes time.
  pub ensure_loaded_ends :
      (target : String) (s : c.router.State) → (ensure_loaded c target s).0 ≢ raise out_of_fuel
  unfolding ensure_loaded
  ensure_loaded_ends target s = (by_mode c.mode).at s
    where
      in_order : Finishes c (
          listed c target >>= λ statuses.
          transition c target statuses (get target (by_id statuses [])))
      in_order =
          bind-Finishes c _ _ (listed-Finishes target)
            (λ statuses. transition-Finishes target statuses (get target (by_id statuses [])))

      by_mode :
          (mode : CoordinatorMode)
          → Finishes c (elim mode [
            | explicit ↦
                if c.has_lock
                then (listed c target >>= λ statuses.
                    transition c target statuses (get target (by_id statuses [])))
                else throw no_lock
            | _ ↦ pure tt
          ])
      by_mode explicit = if_Finishes c _ _ _ in_order (throw-Finishes c no_lock (λ h. ground arith))
      by_mode autoload = pure-Finishes c tt
      by_mode off = pure-Finishes c tt
