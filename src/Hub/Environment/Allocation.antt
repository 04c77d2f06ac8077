-- ===== src/Hub/Environment/Allocation.antt =====
-- The ports and the secrets that `env init` of ops/hubctl.py settles on.
use agent_ui.Prelude.{
  ℕ, zero, suc, ◌≤◌, String, Bool, true, false, ◌&&◌, ◌||◌, not, List, [], ◌∷◌, map, All, Option,
  none, some, ◌≡◌, ◌≢◌, refl, arith, string_eq, nat_eq, eq_iff, Option-cases, Bool-cases, inl, inr,
  sym, ◌∙◌, ap, subst, ok, contains, case_option,
}
use agent_ui.Prelude.Bind.{and_then-Ran, ok-injective}
use agent_ui.Prelude.Text.{is_empty}
use agent_ui.Prelude.Dict.{get, put, get-put_self, get-put_ne}
use agent_ui.Prelude.Json.{ℤ}
use agent_ui.Hub.Environment.{
  Machine, Environment, Ports, value_of, in_range, allocate, allocate_port, configured, port_step,
  port_loop,
}

-- What the runtime promises of its numbers.
pub record IsMachine (m : Machine) : Type 0 where
  pub read_back : (n : ℕ) → m.int_of_text (m.number_text n) ≡ some (ℤ.pos n)
  pub drawn_least : (i : ℕ) → 40000 ≤ m.drawn i
  pub drawn_most : (i : ℕ) → m.drawn i ≤ 60999
  pub token_given : (i : ℕ) → is_empty (m.token i) ≡ false

abbrev pub port_of : Machine → Environment → String → Option ℤ
port_of m values key = m.int_of_text (value_of values key)

-- A draw that is returned is not in use, and in range.
allocate-fresh :
    (m : Machine) (tries i : ℕ) (used : List ℕ) (port next : ℕ)
    → IsMachine m
    → allocate m tries i used ≡ some (port, next)
    → (contains port used ≡ false) × (in_range port ≡ true)
unfolding allocate
allocate-fresh m zero i used port next law h = absurd (ground (arith, h))
allocate-fresh m (suc tries) i used port next law h =
    elim (Bool-cases (contains (m.drawn i) used)) [
      | inl taken ↦ allocate-fresh m tries (suc i) used port next law (rw taken at h)
      | inr free ↦ elim (Bool-cases (m.binds i)) [
        | inl bound ↦
            let same : m.drawn i ≡ port = ground (arith, rw (free, bound) at h) in
            let least = law.drawn_least i in
            let most = law.drawn_most i in
            (ap (λ p. contains p used) (sym same) ∙ free, ground (arith, same, least, most))
        | inr refused ↦ allocate-fresh m tries (suc i) used port next law (rw (free, refused) at h)
      ]
    ]

-- What one round of the loop settles.
record IsSettled (m : Machine) (key : String) (st next : Ports) : Type 0 where
  port : ℕ
  reads : port_of m next.values key ≡ some (ℤ.pos port)
  fits : in_range port ≡ true
  fresh : contains port st.used ≡ false
  grows : next.used ≡ port ∷ st.used
  kept : (k : String) → key ≢ k → get k next.values ≡ get k st.values

configured-ok :
    (o : Option ℤ) (st next : Ports)
    → configured o st ≡ ok next
    → (port : ℕ) × (o ≡ some (ℤ.pos port))
      × (in_range port ≡ true)
      × (contains port st.used ≡ false)
      × (record st { used = port ∷ st.used } ≡ next)
unfolding configured
configured-ok none st next h = absurd (ground (arith, h))
configured-ok (some (ℤ.negsuc n)) st next h = absurd (ground (arith, h))
configured-ok (some (ℤ.pos port)) st next h =
    elim (Bool-cases (not (in_range port) || contains port st.used)) [
      | inl refused ↦ absurd (ground (arith, rw refused at h))
      | inr accepted ↦ (
        port,
        refl,
        ground (arith, accepted),
        ground (arith, accepted),
        ok-injective _ next (rw accepted at h),
      )
    ]

allocated :
    (m : Machine) (i : ℕ) (used : List ℕ) (found : ℕ × ℕ)
    → allocate_port m i used ≡ ok found
    → allocate m 5000 i used ≡ some found
unfolding allocate_port
allocated m i used found h = elim (Option-cases (allocate m 5000 i used)) [
  | inl failed ↦ absurd (ground (arith, rw failed at h))
  | inr (other, there) ↦ there ∙ ap some (ok-injective other found (rw there at h))
]

value-put :
    (m : Machine) (key text : String) (values : Environment)
    → port_of m (put key text values) key ≡ m.int_of_text text
value-put m key text values = rw (get-put_self key text values, port_of) refl

port_step-IsSettled :
    (m : Machine) (reallocate : Bool) (key : String) (st next : Ports)
    → IsMachine m
    → port_step m reallocate key st ≡ ok next
    → IsSettled m key st next
unfolding port_step allocate_port
port_step-IsSettled m reallocate key st next law h =
    elim (Bool-cases (not (is_empty (value_of st.values key)) && not reallocate)) [
      | inl given ↦
          let (port, reads, fits, fresh, same) =
            configured-ok (m.int_of_text (value_of st.values key)) st next (rw given at h) in
          record {
            port = port;
            reads = ap (λ (s : Ports). port_of m s.values key) (sym same) ∙ reads;
            fits = fits;
            fresh = fresh;
            grows = ap (λ (s : Ports). s.used) (sym same);
            kept = λ k other. ap (λ (s : Ports). get k s.values) (sym same);
          }
      | inr drawing ↦
          let (found, drew, last) =
            and_then-Ran (allocate_port m st.draws st.used) _ next (rw drawing at h) in
          let (fresh, fits) =
            allocate-fresh m 5000 st.draws st.used found.0 found.1 law
              (allocated m st.draws st.used found drew) in
          let text = m.number_text found.0 in
          let made : Ports = record {
            values = put key text st.values;
            used = found.0 ∷ st.used;
            draws = found.1;
          } in
          let same = ok-injective made next last in
          record {
            port = found.0;
            reads =
                ap (λ (s : Ports). port_of m s.values key) (sym same)
                ∙ value-put m key text st.values
                ∙ law.read_back found.0;
            fits = fits;
            fresh = fresh;
            grows = ap (λ (s : Ports). s.used) (sym same);
            kept = λ k other.
                ap (λ (s : Ports). get k s.values) (sym same)
                ∙ get-put_ne key k text st.values other;
          }
    ]

-- Each port is none of those before it.
abbrev pub AreFresh : List ℕ → List ℕ → Type 0
AreFresh used [] = Unit
AreFresh used (port ∷ ports) = (contains port used ≡ false) × AreFresh (port ∷ used) ports

-- No key twice.
abbrev pub AreDistinct : List String → Type 0
AreDistinct [] = Unit
AreDistinct (key ∷ keys) = (contains key keys ≡ false) × AreDistinct keys

pub not_among :
    (k key : String) (keys : List String)
    → contains k (key ∷ keys) ≡ false
    → (key ≢ k) × (contains k keys ≡ false)
unfolding contains
not_among k key keys absent = (ground (arith, absent, eq_iff k key), ground (arith, absent))

port_loop-kept :
    (m : Machine) (reallocate : Bool) (keys : List String) (st last : Ports) (k : String)
    → IsMachine m
    → port_loop m reallocate keys st ≡ ok last
    → contains k keys ≡ false
    → get k last.values ≡ get k st.values
unfolding port_loop contains
port_loop-kept m reallocate [] st last k law h absent =
    ap (λ (s : Ports). get k s.values) (sym (ok-injective st last h))
port_loop-kept m reallocate (key ∷ keys) st last k law h absent =
    let (next, stepped, rest) = and_then-Ran (port_step m reallocate key st) _ last h in
    let settled = port_step-IsSettled m reallocate key st next law stepped in
    let (apart, others) = not_among k key keys absent in
    port_loop-kept m reallocate keys next last k law rest others ∙ settled.kept k apart

-- The ports that the keys have, in their order.
pub record HasPorts (m : Machine) (values : Environment) (keys : List String) (used : List ℕ)
    : Type 0 where
  pub ports : List ℕ
  pub read : map (port_of m values) keys ≡ map (λ p. some (ℤ.pos p)) ports
  pub fit : All (λ p. in_range p ≡ true) ports
  pub fresh : AreFresh used ports

pub port_loop-HasPorts :
    (m : Machine) (reallocate : Bool) (keys : List String) (st last : Ports)
    → IsMachine m
    → AreDistinct keys
    → port_loop m reallocate keys st ≡ ok last
    → HasPorts m last.values keys st.used
unfolding port_loop
port_loop-HasPorts m reallocate [] st last law distinct h = record {
  ports = [];
  read = refl;
  fit = tt;
  fresh = tt;
}
port_loop-HasPorts m reallocate (key ∷ keys) st last law distinct h =
    let (next, stepped, rest) = and_then-Ran (port_step m reallocate key st) _ last h in
    let settled = port_step-IsSettled m reallocate key st next law stepped in
    let others = port_loop-HasPorts m reallocate keys next last law distinct.1 rest in
    let kept = port_loop-kept m reallocate keys next last key law rest distinct.0 in
    let first : port_of m last.values key ≡ some (ℤ.pos settled.port) =
      ap (λ o. m.int_of_text (case_option o "" (λ v. v))) kept ∙ settled.reads in
    record {
      ports = settled.port ∷ others.ports;
      read = λ i. first i ∷ others.read i;
      fit = (settled.fits, others.fit);
      fresh = (settled.fresh, subst (λ u. AreFresh u others.ports) settled.grows others.fresh);
    }
