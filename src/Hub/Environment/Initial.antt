-- ===== src/Hub/Environment/Initial.antt =====
-- What `env init` of ops/hubctl.py renders: ports and secrets.
use agent_ui.Prelude.{
  ℕ, suc, String, Bool, true, false, ◌||◌, List, [], ◌∷◌, map, All, Option, none, some, ◌≡◌, refl,
  arith, ◌==◌, string_eq, eq_iff, Bool-cases, inl, inr, sym, ◌∙◌, ap, subst, ok, contains, is_some,
  case_option,
}
use agent_ui.Prelude.Bind.{and_then-Ran, ok-injective}
use agent_ui.Prelude.Text.{is_empty}
use agent_ui.Prelude.Dict.{get, put, get-put_self, get-put_ne}
use agent_ui.Hub.Environment.{
  Machine, Environment, Ports, value_of, port_keys, all_secret_keys, port_loop, secret_loop,
  rotates, InitArgs, initialized, parse_env, overridden,
}
use agent_ui.Hub.Environment.Allocation.{
  IsMachine, HasPorts, AreDistinct, port_of, not_among, port_loop-HasPorts,
}

left_false : (b c : Bool) → (b || c) ≡ false → b ≡ false
left_false b c h = ground (arith, h)

module _ (m : Machine) (a : InitArgs) (existed : Bool) where
  secret_loop-kept :
      (keys : List String) (i : ℕ) (values : Environment) (k : String)
      → contains k keys ≡ false
      → get k (secret_loop m a existed keys i values) ≡ get k values
  unfolding secret_loop
  secret_loop-kept [] i values k absent = refl
  secret_loop-kept (key ∷ keys) i values k absent =
      let (apart, others) = not_among k key keys absent in
      elim (Bool-cases (is_empty (value_of values key) || rotates a existed key)) [
        | inl drawing ↦
            rw (drawing, secret_loop)
              (secret_loop-kept keys (suc i) (put key (m.token i) values) k others
                ∙ get-put_ne key k (m.token i) values apart)
        | inr keeping ↦ rw (keeping, secret_loop) (secret_loop-kept keys i values k others)
      ]

  -- A key has a value that is not empty.
  abbrev IsGiven : Environment → String → Type 0
  IsGiven values k = is_empty (value_of values k) ≡ false

  still-IsGiven :
      (keys : List String) (i : ℕ) (values : Environment) (k : String)
      → contains k keys ≡ false
      → IsGiven values k
      → IsGiven (secret_loop m a existed keys i values) k
  still-IsGiven keys i values k absent given = rw (secret_loop-kept keys i values k absent) given

  token-IsGiven :
      (i : ℕ) (values : Environment) (k : String)
      → IsMachine m
      → IsGiven (put k (m.token i) values) k
  token-IsGiven i values k law = rw (get-put_self k (m.token i) values) (law.token_given i)

  secret_loop-IsGiven :
      (keys : List String) (i : ℕ) (values : Environment) (k : String)
      → IsMachine m
      → AreDistinct keys
      → contains k keys ≡ true
      → IsGiven (secret_loop m a existed keys i values) k
  unfolding secret_loop contains
  secret_loop-IsGiven [] i values k law distinct member = absurd (ground (arith, member))
  secret_loop-IsGiven (key ∷ keys) i values k law distinct member = elim (Bool-cases (k == key)) [
    | inl same ↦
        let is : key ≡ k = sym ((eq_iff k key).0 same) in
        elim (Bool-cases (is_empty (value_of values key) || rotates a existed key)) [
          | inl drawing ↦
              rw (drawing, secret_loop)
                (subst (IsGiven (secret_loop m a existed keys (suc i) (put key (m.token i) values)))
                  is
                  (still-IsGiven keys (suc i) (put key (m.token i) values) key distinct.0
                    (token-IsGiven i values key law)))
          | inr keeping ↦
              rw (keeping, secret_loop)
                (subst (IsGiven (secret_loop m a existed keys i values)) is
                  (still-IsGiven keys i values key distinct.0 (left_false _ _ keeping)))
        ]
    | inr other ↦
        let later : contains k keys ≡ true = rw other at member in
        elim (Bool-cases (is_empty (value_of values key) || rotates a existed key)) [
          | inl drawing ↦
              rw (drawing, secret_loop)
                (secret_loop-IsGiven keys (suc i) (put key (m.token i) values) k law distinct.1
                  later)
          | inr keeping ↦
              rw (keeping, secret_loop) (secret_loop-IsGiven keys i values k law distinct.1 later)
        ]
  ]

  -- Ports stay as they are where no secret has the name of a port.
  secret_loop-HasPorts :
      (keys names : List String) (i : ℕ) (values : Environment) (used : List ℕ)
      → All (λ k. contains k keys ≡ false) names
      → HasPorts m values names used
      → HasPorts m (secret_loop m a existed keys i values) names used
  secret_loop-HasPorts keys names i values used apart had = record {
    ports = had.ports;
    read = same_ports names apart ∙ had.read;
    fit = had.fit;
    fresh = had.fresh;
  }
    where
      same_ports :
          (names : List String)
          → All (λ k. contains k keys ≡ false) names
          → map (port_of m (secret_loop m a existed keys i values)) names
            ≡ map (port_of m values) names
      same_ports [] apart = refl
      same_ports (k ∷ ks) apart =
          let kept = secret_loop-kept keys i values k apart.0 in
          let first : port_of m (secret_loop m a existed keys i values) k ≡ port_of m values k =
            ap (λ o. m.int_of_text (case_option o "" (λ v. v))) kept in
          λ j. first j ∷ same_ports ks apart.1 j

distinct_ports : AreDistinct port_keys
unfolding contains
distinct_ports = (refl, (refl, (refl, (refl, (refl, (refl, (refl, (refl, tt))))))))

distinct_secrets : AreDistinct all_secret_keys
unfolding contains
distinct_secrets =
    (refl, (refl, (refl, (refl, (refl, (refl, (refl, (refl, (refl, (refl, tt))))))))))

ports_apart : All (λ k. contains k all_secret_keys ≡ false) port_keys
unfolding contains
ports_apart = (refl, (refl, (refl, (refl, (refl, (refl, (refl, (refl, tt))))))))

-- The values that `env init` renders have ports that are read as numbers from 1024 to 65535, no
-- two of them equal, and a text that is not empty under every secret key, where the printed form
-- of a number reads back, draws are from 40000 to 60999, and tokens are not empty.
pub initialized-HasPorts :
    (m : Machine) (a : InitArgs) (template output : Option String) (text : String)
    (values : Environment) (key : String)
    → IsMachine m
    → contains key all_secret_keys ≡ true
    → initialized m a template output ≡ ok (text, values)
    → HasPorts m values port_keys [] × (is_empty (value_of values key) ≡ false)
unfolding initialized contains
initialized-HasPorts m a none output text values key law member h = absurd (ground (arith, h))
initialized-HasPorts m a (some template) output text values key law member h =
    let start = overridden (parse_env template) (case_option output [] parse_env) in
    let before : Ports = record { values = start; used = []; draws = 0 } in
    let (st, run, last) =
      and_then-Ran (port_loop m a.reallocate_ports port_keys before) _ (text, values) h in
    let rendered = secret_loop m a (is_some output) all_secret_keys 0 st.values in
    let same = ok-injective (template, rendered) (text, values) last in
    let is_values : rendered ≡ values = ap (λ p. p.1) same in
    let had = port_loop-HasPorts m a.reallocate_ports port_keys before st law distinct_ports run in
    (
      subst (λ v. HasPorts m v port_keys []) is_values
          (secret_loop-HasPorts m a (is_some output) all_secret_keys port_keys 0 st.values []
            ports_apart had),
      subst (λ v. is_empty (value_of v key) ≡ false) is_values
          (secret_loop-IsGiven m a (is_some output) all_secret_keys 0 st.values key law
            distinct_secrets member),
    )
