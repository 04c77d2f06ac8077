-- ===== src/Backends/Registry.antt =====
-- The registry of backends.py finds what the catalog declares.
use agent_ui.Prelude.{
  String, [], ◌∷◌, none, some, ◌≡◌, ◌≢◌, refl, arith, ◌==◌, string_eq, eq_iff, Result, ok, raise,
  case_option, Bool-cases, Option-cases, inl, inr, sym, ◌∙◌, ap,
}
use agent_ui.Prelude.Dict.{Dict, get, IsDict, get-put_self, get-put_ne}
use agent_ui.Host.{Host}
use agent_ui.Catalog.{Backend}
use agent_ui.Backends.{
  BackendSettings, BackendRuntime, Registered, build_one, add_built, build_loop, build, get_runtime,
}

module _ (h : Host) (settings : BackendSettings) where
  added_same :
      (k : String) (built : Result String BackendRuntime) (r : Registered h settings)
      → get k r.runtimes ≡ none
      → get_runtime h settings k (add_built h settings k built r) ≡ built
  unfolding get_runtime add_built
  added_same k (ok runtime) r absent = rw (get-put_self k runtime r.runtimes) refl
  added_same k (raise reason) r absent = rw (absent, get-put_self k reason r.unavailable) refl

  added_other :
      (j k : String) (built : Result String BackendRuntime) (r : Registered h settings)
      → j ≢ k
      → (get_runtime h settings k (add_built h settings j built r) ≡ get_runtime h settings k r)
        × (get k (add_built h settings j built r).runtimes ≡ get k r.runtimes)
  unfolding get_runtime add_built
  added_other j k (ok runtime) r other =
      let same = get-put_ne j k runtime r.runtimes other in (rw same refl, same)
  added_other j k (raise reason) r other =
      (rw (get-put_ne j k reason r.unavailable other) refl, refl)

  -- Backends that are not in the rest of the loop keep their place.
  build_loop-kept :
      (backends : Dict String Backend) (r : Registered h settings) (k : String)
      → get k backends ≡ none
      → get_runtime h settings k (build_loop h settings backends r) ≡ get_runtime h settings k r
  unfolding build_loop get
  build_loop-kept [] r k absent = refl
  build_loop-kept ((j, spec) ∷ rest) r k absent =
      let built = build_one h settings j spec in
      let other : j ≢ k = ground (arith, eq_iff j k, absent) in
      let later : get k rest ≡ none = ground (arith, eq_iff j k, absent) in
      build_loop-kept rest (add_built h settings j built r) k later
      ∙ (added_other j k built r other).0

  build_loop-get :
      (backends : Dict String Backend) (r : Registered h settings) (k : String) (spec : Backend)
      → IsDict backends
      → get k r.runtimes ≡ none
      → get k backends ≡ some spec
      → get_runtime h settings k (build_loop h settings backends r) ≡ build_one h settings k spec
  unfolding build_loop get
  build_loop-get [] r k spec dict absent there = absurd (ground (arith, there))
  build_loop-get ((j, own) ∷ rest) r k spec dict absent there = elim (Bool-cases (j == k)) [
    | inl same ↦
        let is : j ≡ k = (eq_iff j k).0 same in
        let found : own ≡ spec = ground (arith, rw same at there) in
        rw (is, found)
          (build_loop-kept rest (add_built h settings k (build_one h settings k spec) r) k
              (ap (λ x. get x rest) (sym is) ∙ dict.0)
            ∙ added_same k (build_one h settings k spec) r absent)
    | inr apart ↦
        let built = build_one h settings j own in
        let other : j ≢ k = ground (arith, eq_iff j k, apart) in
        build_loop-get rest (add_built h settings j built r) k spec dict.1
          ((added_other j k built r other).1 ∙ absent) (rw apart at there)
  ]

  -- Each identifier is looked up as its backend alone is built.
  pub build-get :
      (backends : Dict String Backend) (k : String)
      → IsDict backends
      → get_runtime h settings k (build h settings backends)
        ≡ case_option (get k backends) (raise "not registered") (build_one h settings k)
  unfolding build get_runtime get
  build-get backends k dict =
      let nothing : Registered h settings = record { runtimes = []; unavailable = [] } in
      elim (Option-cases (get k backends)) [
        | inl absent ↦ rw absent (build_loop-kept backends nothing k absent)
        | inr (spec, there) ↦ rw there (build_loop-get backends nothing k spec dict refl there)
      ]
