-- ===== src/Coordinator/Switching.antt =====
-- The change of models, for a router that keeps laws of its own.
use agent_ui.Prelude.{
  ℕ, zero, suc, ◌+◌, String, Bool, true, false, ◌||◌, not, List, [], ◌∷◌, Option, none, some, ◌≡◌,
  ◌≢◌, refl, arith, string_eq, eq_iff, Bool-cases, inl, inr, ok, raise, Result, find, ltb, ◌==◌,
  ◌>>=◌, pure, throw, All, continue, subst,
}
use agent_ui.Prelude.Bind.{>>=-Ran}
use agent_ui.Prelude.Keeps.{Keeps, Keeps-pure, Keeps-bind, Keeps-if}
use agent_ui.Coordinator.{
  ModelStatus, Coordinator, CoordinationError, list_models, is_model, wait_loop, wait_for, judged,
  Action, is_active, is_unloaded, is_ready, posted, unload_others, load_target, switch,
}
use agent_ui.Coordinator.Waiting.{wait_for-IsSeen}

-- What the coordinator relies on: `Idle m s` tells that the router holds nothing of the model `m` in
-- the state `s`. A listing that shows a model inactive is right about it, and no request makes a
-- model busy but the one to load that model.
pub record RouterLaws (c : Coordinator) (Idle : String → c.router.State → Type 0) : Type 0 where
  pub honest :
      (reload : Bool) (s t : c.router.State) (statuses : List ModelStatus)
      → list_models c reload s ≡ (ok statuses, t)
      → All (λ status. is_active status.value ≡ false → Idle status.model_id t) statuses
  pub listing_keeps :
      (model : String) (reload : Bool) (s : c.router.State)
      → Idle model s
      → Idle model (c.router.get_models reload s).1
  pub unloading_keeps :
      (model other : String) (s : c.router.State)
      → Idle model s
      → Idle model (c.router.post_unload other s).1
  pub loading_keeps :
      (model other : String) (s : c.router.State)
      → model ≢ other
      → Idle model s
      → Idle model (c.router.post_load other s).1
  pub sleeping_keeps :
      (model : String) (s : c.router.State) → Idle model s → Idle model (c.router.sleep s)

find-All :
    {A : Type 0} (P : A → Type 0) (p : A → Bool) (xs : List A) (x : A)
    → All P xs
    → find p xs ≡ some x
    → P x × (p x ≡ true)
unfolding find
find-All P p [] x h found = absurd (ground arith)
find-All P p (y ∷ xs) x h found = elim (Bool-cases (p y)) [
  | inl here ↦
      let same : y ≡ x = ground (arith, rw here at found) in (subst P same h.0, rw (← same) here)
  | inr other ↦ find-All P p xs x h.1 (rw other at found)
]

module _ (c : Coordinator) (Idle : String → c.router.State → Type 0) (laws : RouterLaws c Idle)
    (model : String) where
  judged-keeps :
      (other : String) (expected : String → Bool) (seen : Option ModelStatus)
      (again : Action c Unit) (t : c.router.State)
      → Idle model t
      → (Idle model t → Idle model (again t).1)
      → Idle model (judged c other expected seen again t).1
  unfolding throw pure
  judged-keeps other expected none again t idle later = later idle
  judged-keeps other expected (some status) again t idle later = elim (Bool-cases status.failed) [
    | inl failed ↦ rw failed idle
    | inr sound ↦ elim (Bool-cases (expected status.value)) [
      | inl meets ↦ rw (sound, meets) idle
      | inr not_yet ↦ rw (sound, not_yet) (later idle)
    ]
  ]

  continue-keeps :
      {A : Type 0} (r : Result CoordinationError A) (f : A → Action c Unit) (t : c.router.State)
      → Idle model t
      → ((a : A) → Idle model (f a t).1)
      → Idle model (continue r f t).1
  continue-keeps (ok a) f t idle each = each a
  continue-keeps (raise e) f t idle each = idle

  wait_loop-keeps :
      (fuel : ℕ) (other : String) (expected : String → Bool) (deadline : ℕ)
      (last : Option ModelStatus) (s : c.router.State)
      → Idle model s
      → Idle model (wait_loop c fuel other expected deadline last s).1
  unfolding wait_loop list_models ◌>>=◌
  wait_loop-keeps zero other expected deadline last s idle = idle
  wait_loop-keeps (suc fuel) other expected deadline last s idle =
      let t = (c.router.get_models false s).1 in
      let kept : Idle model t = laws.listing_keeps model false s idle in
      elim (Bool-cases (ltb (c.router.monotonic s) deadline)) [
        | inr late ↦ rw late idle
        | inl early ↦ rw early (
            continue-keeps (list_models c false s).0 _ t kept (λ statuses.
              judged-keeps other expected (find (is_model c other) statuses) _ t kept (λ k.
                wait_loop-keeps fuel other expected deadline _ (c.router.sleep t)
                  (laws.sleeping_keeps model t k))))
      ]

  wait_for-keeps :
      (other : String) (expected : String → Bool) (s : c.router.State)
      → Idle model s
      → Idle model (wait_for c other expected s).1
  unfolding wait_for
  wait_for-keeps other expected s idle =
      wait_loop-keeps (suc c.timeout) other expected (c.router.monotonic s + c.timeout) none s idle

  wait_for-Keeps :
      (other : String) (expected : String → Bool) → Keeps (Idle model) (wait_for c other expected)
  wait_for-Keeps other expected = record { at = wait_for-keeps other expected }

  unload-Keeps :
      (target other : String) → Keeps (Idle model) (posted c target (c.router.post_unload other))
  unfolding posted
  unload-Keeps target other = record { at = λ s idle. laws.unloading_keeps model other s idle }

  unload_others-Keeps :
      (target : String) (statuses : List ModelStatus)
      → Keeps (Idle model) (unload_others c target statuses)
  unfolding unload_others
  unload_others-Keeps target [] = Keeps-pure tt
  unload_others-Keeps target (status ∷ statuses) =
      let rest = unload_others-Keeps target statuses in
      Keeps-if _ _ _ (λ skipped. rest)
        (λ busy.
          Keeps-bind _ _ (unload-Keeps target status.model_id)
            (λ u. Keeps-bind _ _ (wait_for-Keeps status.model_id is_unloaded) (λ v. rest)))

  load_target-Keeps : (target : String) → model ≢ target → Keeps (Idle model) (load_target c target)
  unfolding load_target posted
  load_target-Keeps target other =
      Keeps-bind _ _ (record { at = λ s idle. laws.loading_keeps model target s other idle })
        (λ u. wait_for-Keeps target is_ready)

module _ (c : Coordinator) (Idle : String → c.router.State → Type 0) (laws : RouterLaws c Idle)
    (target : String) where
  -- A model that was waited for is idle.
  waited-Idle :
      (model : String) (s v : c.router.State)
      → wait_for c model is_unloaded s ≡ (ok tt, v)
      → Idle model v
  waited-Idle model s v h =
      let seen = wait_for-IsSeen c model is_unloaded s v h in
      let (right, named) =
        find-All _ (is_model c model) seen.statuses seen.status
          (laws.honest false seen.before v seen.statuses seen.answer) seen.found in
      let same : seen.status.model_id ≡ model = (eq_iff seen.status.model_id model).0 named in
      let off : seen.status.value ≡ "unloaded" =
        (eq_iff seen.status.value "unloaded").0 seen.as_expected in
      subst (λ m. Idle m v) same (right (rw off refl))

  abbrev OthersIdle : List ModelStatus → c.router.State → Type 0
  OthersIdle statuses v = All (λ status. status.model_id ≢ target → Idle status.model_id v) statuses

  abbrev Right : List ModelStatus → c.router.State → Type 0
  Right statuses s =
      All (λ status. is_active status.value ≡ false → Idle status.model_id s) statuses

  Right-later :
      (statuses : List ModelStatus) (s t : c.router.State)
      → ((model : String) → Idle model s → Idle model t)
      → Right statuses s
      → Right statuses t
  Right-later [] s t keep right = tt
  Right-later (status ∷ statuses) s t keep right =
      (λ off. keep status.model_id (right.0 off), Right-later statuses s t keep right.1)

  after :
      {A : Type 0} (model : String) (m : Action c A) (s : c.router.State) (a : A)
      (t : c.router.State)
      → Keeps (Idle model) m
      → m s ≡ (ok a, t)
      → Idle model s
      → Idle model t
  after model m s a t k ran idle = subst (λ r. Idle model r.1) ran (k.at s idle)

  unload_others-OthersIdle :
      (statuses : List ModelStatus) (s v : c.router.State)
      → Right statuses s
      → unload_others c target statuses s ≡ (ok tt, v)
      → OthersIdle statuses v
  unfolding unload_others
  unload_others-OthersIdle [] s v right h = tt
  unload_others-OthersIdle (status ∷ statuses) s v right h =
      let id = status.model_id in
      elim (Bool-cases (id == target || not (is_active status.value))) [
        | inl skipped ↦
            let rest = rw skipped at h in
            (
              λ other.
                  after id (unload_others c target statuses) s tt v
                    (unload_others-Keeps c Idle laws id target statuses) rest
                    (right.0 (ground (arith, skipped, other, eq_iff id target))),
              unload_others-OthersIdle statuses s v right.1 rest,
            )
        | inr busy ↦
            let first = >>=-Ran _ _ s tt v (rw busy at h) in
            let second = >>=-Ran _ _ first.between tt v first.rest in
            let idle : Idle id second.between =
              waited-Idle id first.between second.between second.first in
            let still = λ (model : String) (was : Idle model s).
              after model _ first.between second.value second.between
                (wait_for-Keeps c Idle laws model id is_unloaded) second.first
                (after model _ s first.value first.between
                  (unload-Keeps c Idle laws model target id) first.first was) in
            (
              λ other.
                  after id (unload_others c target statuses) second.between tt v
                    (unload_others-Keeps c Idle laws id target statuses) second.rest idle,
              unload_others-OthersIdle statuses second.between v
                  (Right-later statuses s second.between still right.1) second.rest,
            )
      ]

  -- For a router that keeps its laws, a change of models that returns, made on what a listing just
  -- showed, leaves every model of that listing but the target idle.
  pub switch-OthersIdle :
      (reload : Bool) (before s v : c.router.State) (statuses : List ModelStatus)
      → list_models c reload before ≡ (ok statuses, s)
      → switch c target statuses s ≡ (ok tt, v)
      → All (λ status. status.model_id ≢ target → Idle status.model_id v) statuses
  unfolding switch
  switch-OthersIdle reload before s v statuses listing h =
      let ran = >>=-Ran _ _ s tt v h in
      keep statuses ran.between v
        (λ model other idle.
          after model (load_target c target) ran.between tt v
            (load_target-Keeps c Idle laws model target other) ran.rest idle)
        (unload_others-OthersIdle statuses s ran.between
          (laws.honest reload before s statuses listing) ran.first)
    where
      keep :
          (ds : List ModelStatus) (t u : c.router.State)
          → ((model : String) → model ≢ target → Idle model t → Idle model u)
          → OthersIdle ds t
          → OthersIdle ds u
      keep [] t u f k = tt
      keep (d ∷ ds) t u f k = (λ other. f d.model_id other (k.0 other), keep ds t u f k.1)
