-- ===== src/Coordinator/Readiness.antt =====
-- What a call of `ensure_loaded` that returned has seen.
use agent_ui.Prelude.{
  String, Bool, true, false, ◌&&◌, not, List, [], ◌∷◌, Option, none, some, ◌≡◌, refl, arith,
  string_eq, Bool-cases, inl, inr, ok, find, any, ◌==◌, pure, throw, is_some, ◌∙◌, ◌⊎◌,
}
use agent_ui.Prelude.Dict.{Dict, get, put, get-put}
use agent_ui.Prelude.Bind.{>>=-Ran}
use agent_ui.Catalog.{explicit}
use agent_ui.Coordinator.{
  ModelStatus, Coordinator, list_models, is_model, wait_for, is_ready, posted, unload_others,
  load_target, switch, listed, by_id, transition, ensure_loaded,
}
use agent_ui.Coordinator.Waiting.{wait_for-IsSeen}

-- A status of the list says that the model is ready.
abbrev pub shows_ready : String → List ModelStatus → Bool
shows_ready target =
    any (λ status. status.model_id == target && is_ready status.value && not status.failed)

find-ready :
    (c : Coordinator) (target : String) (statuses : List ModelStatus) (status : ModelStatus)
    → find (is_model c target) statuses ≡ some status
    → is_ready status.value ≡ true
    → status.failed ≡ false
    → shows_ready target statuses ≡ true
unfolding find any
find-ready c target [] status found ready sound = absurd (ground arith)
find-ready c target (x ∷ xs) status found ready sound = elim (Bool-cases (x.model_id == target)) [
  | inr other ↦ ground (arith, find-ready c target xs status (rw other at found) ready sound)
  | inl here ↦
      let same : x ≡ status = ground (arith, rw here at found) in rw (here, same, ready, sound) refl
]

by_id-ready :
    (target : String) (statuses : List ModelStatus) (d : Dict String ModelStatus)
    (status : ModelStatus)
    → get target (by_id statuses d) ≡ some status
    → is_ready status.value ≡ true
    → status.failed ≡ false
    → (get target d ≡ some status) ⊎ (shows_ready target statuses ≡ true)
unfolding by_id any
by_id-ready target [] d status at ready sound = inl at
by_id-ready target (x ∷ xs) d status at ready sound =
    elim (by_id-ready target xs (put x.model_id x d) status at ready sound) [
      | inr later ↦ inr (ground (arith, later))
      | inl here ↦ elim (Bool-cases (x.model_id == target)) [
        | inr other ↦ inl (ground (arith, here, get-put x.model_id target x d))
        | inl own ↦
            let same : x ≡ status = ground (arith, here, get-put x.model_id target x d) in
            inr (rw (own, same, ready, sound) refl)
      ]
    ]

-- A listing that left the state `v` and shows the model ready.
pub record IsReady (c : Coordinator) (target : String) (v : c.router.State) : Type 0 where
  pub reload : Bool
  pub before : c.router.State
  pub statuses : List ModelStatus
  pub answer : list_models c reload before ≡ (ok statuses, v)
  pub ready : shows_ready target statuses ≡ true

module _ (c : Coordinator) (target : String) where
  waited-IsReady :
      (s v : c.router.State) → wait_for c target is_ready s ≡ (ok tt, v) → IsReady c target v
  waited-IsReady s v h =
      let seen = wait_for-IsSeen c target is_ready s v h in
      record {
        reload = false;
        before = seen.before;
        statuses = seen.statuses;
        answer = seen.answer;
        ready =
            find-ready c target seen.statuses seen.status seen.found seen.as_expected seen.sound;
      }

  switch-IsReady :
      (statuses : List ModelStatus) (s v : c.router.State)
      → switch c target statuses s ≡ (ok tt, v)
      → IsReady c target v
  unfolding switch load_target
  switch-IsReady statuses s v h =
      let first = >>=-Ran (unload_others c target statuses) _ s tt v h in
      let second =
        >>=-Ran (posted c target (c.router.post_load target)) _ first.between tt v first.rest in
      waited-IsReady second.between v second.rest

  listed-source :
      (s t : c.router.State) (statuses : List ModelStatus)
      → listed c target s ≡ (ok statuses, t)
      → (reload : Bool) × (before : c.router.State) × (list_models c reload before
          ≡ (ok statuses, t))
  unfolding listed pure
  listed-source s t statuses h =
      let first = >>=-Ran (list_models c false) _ s statuses t h in
      elim (Bool-cases (is_some (get target (by_id first.value [])))) [
        | inr missing ↦ (true, first.between, rw missing at first.rest)
        | inl there ↦
            let same : (ok first.value, first.between) ≡ (ok statuses, t) =
              rw there at first.rest in
            (false, s, first.first ∙ same)
      ]

  transition-IsReady :
      (reload : Bool) (before s v : c.router.State) (statuses : List ModelStatus)
      (o : Option ModelStatus)
      → list_models c reload before ≡ (ok statuses, s)
      → get target (by_id statuses []) ≡ o
      → transition c target statuses o s ≡ (ok tt, v)
      → IsReady c target v
  unfolding throw pure get
  transition-IsReady reload before s v statuses none listing at h = absurd (ground arith)
  transition-IsReady reload before s v statuses (some status) listing at h =
      elim (Bool-cases (is_ready status.value && not status.failed)) [
        | inl done ↦
            let same : s ≡ v = ground (arith, rw done at h) in
            record {
              reload = reload;
              before = before;
              statuses = statuses;
              answer = rw (← same) listing;
              ready =
                  ground
                    (arith, by_id-ready target statuses [] status at (ground arith) (ground arith));
            }
        | inr not_ready ↦ elim (Bool-cases (status.value == "loading" && not status.failed)) [
          | inl loading ↦ waited-IsReady s v (rw (not_ready, loading) at h)
          | inr other ↦ switch-IsReady statuses s v (rw (not_ready, other) at h)
        ]
      ]

  -- When `ensure_loaded` returns in explicit mode, the last answer of the router was a listing
  -- that shows the target loaded or sleeping, and not failed.
  pub ensure_loaded-IsReady :
      (s v : c.router.State)
      → c.mode ≡ explicit
      → ensure_loaded c target s ≡ (ok tt, v)
      → IsReady c target v
  unfolding ensure_loaded throw
  ensure_loaded-IsReady s v explicitly h = elim (Bool-cases c.has_lock) [
    | inr missing ↦ absurd (ground (arith, rw (explicitly, missing) at h))
    | inl locked ↦
        let first = >>=-Ran (listed c target) _ s tt v (rw (explicitly, locked) at h) in
        let (reload, before, listing) = listed-source s first.between first.value first.first in
        transition-IsReady reload before first.between v first.value
          (get target (by_id first.value [])) listing refl first.rest
  ]
