-- ===== src/Backends/Answers.antt =====
-- What the registry of backends.py answers for an identifier.
use agent_ui.Prelude.{
  String, Bool, true, false, ◌&&◌, not, Option, none, some, ◌≡◌, refl, arith, string_eq, Result, ok,
  raise, case_option, if◌then◌else◌, is_some, Bool-cases, Option-cases, inl, inr, sym, subst,
}
use agent_ui.Prelude.Dict.{Dict, get, IsDict}
use agent_ui.Prelude.Text.{is_empty}
use agent_ui.Host.{Host}
use agent_ui.Catalog.{Backend, truthy_text}
use agent_ui.Backends.{
  BackendSettings, BackendRuntime, is_legacy, is_llama, coordinates, resolved_base_url, effective,
  effective_url, runtime_of, build_one, build, get_runtime,
}
use agent_ui.Backends.Registry.{build-get}

module _ (h : Host) (settings : BackendSettings) where
  -- The URL that a backend has by its own, or by the settings if it is a legacy one.
  abbrev pub given_url : Backend → Option String
  given_url spec = if is_legacy spec then some settings.llama_base_url else resolved_base_url h spec

  module _ (backends : Dict String Backend) (k : String) where
    -- A runtime of a backend that is declared under the identifier and enabled, at its URL, with
    -- a gate if its requests are serialized, and with a coordinator if it is a llama.cpp router
    -- that coordinates; the coordinator has the lock of the gate.
    pub record IsBuilt (runtime : BackendRuntime) : Type 0 where
      pub spec : Backend
      pub declared : get k backends ≡ some spec
      pub enabled : spec.enabled ≡ true
      pub named : runtime.backend_id ≡ k
      pub addressed : given_url spec ≡ some runtime.base_url
      pub not_empty : is_empty runtime.base_url ≡ false
      pub mode :
          runtime.spec.coordinator
          ≡ (if is_legacy spec then settings.model_coordinator_mode else spec.coordinator)
      pub gated : is_some runtime.gate ≡ spec.serialize_requests
      pub coordinated : is_some runtime.coordinator ≡ (is_llama spec && coordinates runtime.spec)
      pub coordinator_mode :
          case_option runtime.coordinator runtime.spec.coordinator (λ c. c.mode)
          ≡ runtime.spec.coordinator
      pub locked :
          case_option runtime.coordinator spec.serialize_requests (λ c. c.has_lock)
          ≡ spec.serialize_requests

    -- An answer of the registry, by what is declared under the identifier.
    pub data IsAnswer : Result String BackendRuntime → Type 0 where
      absent : get k backends ≡ none → IsAnswer (raise "not registered")
      disabled :
          (spec : Backend)
          → get k backends ≡ some spec
          → spec.enabled ≡ false
          → IsAnswer (raise "disabled")
      unaddressed :
          (spec : Backend)
          → get k backends ≡ some spec
          → spec.enabled ≡ true
          → truthy_text (given_url spec) ≡ none
          → IsAnswer (raise "base URL is not configured")
      built : (runtime : BackendRuntime) → IsBuilt runtime → IsAnswer (ok runtime)

    truthy-some :
        (o : Option String) (t : String)
        → truthy_text o ≡ some t
        → (o ≡ some t) × (is_empty t ≡ false)
    truthy-some none t e = absurd (ground (arith, e))
    truthy-some (some u) t e = elim (Bool-cases (is_empty u)) [
      | inl blank ↦ absurd (ground (arith, rw blank at e))
      | inr full ↦ let same = rw full at e in (same, ground (arith, same, full))
    ]

    same_kind : (spec : Backend) → is_llama (effective h settings spec) ≡ is_llama spec
    unfolding effective
    same_kind spec = elim (Bool-cases (is_legacy spec)) [
      | inl legacy ↦ rw legacy refl
      | inr own ↦ rw own refl
    ]

    same_lock :
        (spec : Backend) → (effective h settings spec).serialize_requests ≡ spec.serialize_requests
    unfolding effective
    same_lock spec = elim (Bool-cases (is_legacy spec)) [
      | inl legacy ↦ rw legacy refl
      | inr own ↦ rw own refl
    ]

    effective_mode :
        (spec : Backend)
        → (effective h settings spec).coordinator
          ≡ (if is_legacy spec then settings.model_coordinator_mode else spec.coordinator)
    unfolding effective
    effective_mode spec = elim (Bool-cases (is_legacy spec)) [
      | inl legacy ↦ rw legacy refl
      | inr own ↦ rw own refl
    ]

    runtime_of-IsBuilt :
        (spec : Backend) (url : String)
        → get k backends ≡ some spec
        → spec.enabled ≡ true
        → truthy_text (given_url spec) ≡ some url
        → IsBuilt (runtime_of h settings k spec url)
    unfolding runtime_of
    runtime_of-IsBuilt spec url declared on at =
        let (addressed, full) = truthy-some (given_url spec) url at in
        let fits =
          is_llama (effective h settings spec) && coordinates (effective h settings spec) in
        record {
          spec = spec;
          declared = declared;
          enabled = on;
          named = refl;
          addressed = addressed;
          not_empty = full;
          mode = effective_mode spec;
          gated = ground (arith, same_lock spec);
          coordinated = elim (Bool-cases fits) [
            | inl yes_fits ↦ ground (arith, yes_fits, same_kind spec)
            | inr not_fits ↦ ground (arith, not_fits, same_kind spec)
          ];
          coordinator_mode = elim (Bool-cases fits) [
            | inl yes_fits ↦ rw yes_fits refl
            | inr not_fits ↦ rw not_fits refl
          ];
          locked = elim (Bool-cases fits) [
            | inl yes_fits ↦ rw yes_fits (same_lock spec)
            | inr not_fits ↦ rw not_fits refl
          ];
        }

    answered :
        (spec : Backend) (enabled : Bool) (url : Option String)
        → get k backends ≡ some spec
        → spec.enabled ≡ enabled
        → truthy_text (given_url spec) ≡ url
        → IsAnswer (
            if not enabled
            then raise "disabled"
            else case_option url
                (raise "base URL is not configured")
                (λ base_url. ok (runtime_of h settings k spec base_url)))
    answered spec false url declared idle at = IsAnswer.disabled spec declared idle
    answered spec true none declared on at = IsAnswer.unaddressed spec declared on at
    answered spec true (some url) declared on at =
        IsAnswer.built (runtime_of h settings k spec url)
          (runtime_of-IsBuilt spec url declared on at)

    build_one-IsAnswer :
        (spec : Backend) → get k backends ≡ some spec → IsAnswer (build_one h settings k spec)
    unfolding build_one effective_url
    build_one-IsAnswer spec declared =
        answered spec spec.enabled (truthy_text (given_url spec)) declared refl refl

  -- Where no identifier is declared twice, the registry answers for each identifier by what is
  -- declared under it: nothing, a disabled backend or one without a URL is an error with that
  -- reason; any other is a runtime at its URL, with a gate exactly if its requests are serialized,
  -- and exactly if it is a llama.cpp router that coordinates with a coordinator, in its mode and
  -- with the lock of its gate.
  pub build-IsAnswer :
      (backends : Dict String Backend) (k : String)
      → IsDict backends
      → IsAnswer backends k (get_runtime h settings k (build h settings backends))
  build-IsAnswer backends k dict =
      subst (IsAnswer backends k) (sym (build-get h settings backends k dict))
        (elim (Option-cases (get k backends)) [
          | inl nothing ↦ rw nothing (IsAnswer.absent nothing)
          | inr (spec, there) ↦ rw there (build_one-IsAnswer backends k spec there)
        ])
