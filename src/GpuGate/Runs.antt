-- ===== src/GpuGate/Runs.antt =====
-- The leases of gpu.py in any order of the tasks, at any number of gates.
use agent_ui.Prelude.{
  ℕ, suc, ◌+◌, ◌≤◌, ◌<◌, true, List, [], ◌∷◌, ◌++◌, All, All-append, All-split, length, contains,
  nat_eq, nat_beq, ◌≡◌, refl, arith, Bool-cases, inl, inr,
}
use agent_ui.GpuGate.{
  Gate, Gauges, new_gate, no_tasks, remove, ask, give, enter, abandon, give_back, leave,
}

-- What a task may do at a gate, by the gauges and the gate before and after.
pub data Step : Gauges → Gate → Gauges × Gate → Type 0 where
  asks : (m : Gauges) (g : Gate) (t : ℕ) → Step m g (ask t (m, g))
  gives :
      (m : Gauges) (g : Gate) (t : ℕ)
      → contains t g.waiting ≡ true
      → 0 < g.free
      → Step m g (m, give t g)
  enters : (m : Gauges) (g : Gate) (t : ℕ) → contains t g.given ≡ true → Step m g (enter t (m, g))
  abandons :
      (m : Gauges) (g : Gate) (t : ℕ) → contains t g.waiting ≡ true → Step m g (abandon t (m, g))
  gives_back :
      (m : Gauges) (g : Gate) (t : ℕ) → contains t g.given ≡ true → Step m g (give_back t (m, g))
  leaves : (m : Gauges) (g : Gate) (t : ℕ) → contains t g.holding ≡ true → Step m g (leave t (m, g))

-- The gauges and gates that are reached in a process whose gates have this capacity.
pub data Reached (capacity : ℕ) : Gauges → List Gate → Type 0 where
  begin : Reached capacity no_tasks []
  -- a backend gets a gate
  creates :
      {m : Gauges} {gates : List Gate}
      → Reached capacity m gates
      → Reached capacity m (new_gate capacity ∷ gates)
  moves :
      {m : Gauges}
      → (before : List Gate) (g : Gate) (after : List Gate) (next : Gauges × Gate) → Step m g next
      → Reached capacity m (before ++ g ∷ after)
      → Reached capacity next.0 (before ++ next.1 ∷ after)

-- The tasks at `acquire` and those inside of their lease, at all gates.
pub all_waiting : List Gate → ℕ
all_waiting [] = 0
all_waiting (g ∷ gs) = length g.waiting + length g.given + all_waiting gs

pub all_holding : List Gate → ℕ
all_holding [] = 0
all_holding (g ∷ gs) = length g.holding + all_holding gs

-- A slot of the gate is free, given or held, so no more leases are held than the capacity.
pub record IsBounded (capacity : ℕ) (g : Gate) : Type 0 where
  pub slots : g.free + length g.given + length g.holding ≡ capacity
  pub most : length g.holding ≤ capacity

all_waiting-append : (xs ys : List Gate) → all_waiting (xs ++ ys) ≡ all_waiting xs + all_waiting ys
unfolding all_waiting
all_waiting-append [] ys = omega arith
all_waiting-append (x ∷ xs) ys = omega (arith, all_waiting-append xs ys)

all_holding-append : (xs ys : List Gate) → all_holding (xs ++ ys) ≡ all_holding xs + all_holding ys
unfolding all_holding
all_holding-append [] ys = omega arith
all_holding-append (x ∷ xs) ys = omega (arith, all_holding-append xs ys)

length-remove :
    (t : ℕ) (ts : List ℕ) → contains t ts ≡ true → suc (length (remove t ts)) ≡ length ts
unfolding remove contains
length-remove t [] h = absurd (ground (arith, h))
length-remove t (u ∷ us) h = elim (Bool-cases (nat_beq t u)) [
  | inl same ↦ rw same refl
  | inr other ↦ rw other (omega (arith, length-remove t us (rw other at h)))
]

-- What a step changes the gauges by is what it changes the gate by, where the gauges count the
-- tasks of the gate and others.
record IsCounted (m : Gauges) (g : Gate) (waiting holding : ℕ) : Type 0 where
  waiters : m.waiters ≡ length g.waiting + length g.given + waiting
  in_flight : m.in_flight ≡ length g.holding + holding

Step-IsCounted :
    {m : Gauges} {g : Gate} {next : Gauges × Gate} (waiting holding : ℕ)
    → Step m g next
    → IsCounted m g waiting holding
    → IsCounted next.0 next.1 waiting holding
unfolding ask give enter abandon give_back leave
Step-IsCounted w n (Step.asks m g t) h = record {
  waiters = omega (arith, h.waiters);
  in_flight = h.in_flight;
}
Step-IsCounted w n (Step.gives m g t there left) h = record {
  waiters = omega (arith, h.waiters, length-remove t g.waiting there);
  in_flight = h.in_flight;
}
Step-IsCounted w n (Step.enters m g t there) h = record {
  waiters = omega (arith, h.waiters, length-remove t g.given there);
  in_flight = omega (arith, h.in_flight);
}
Step-IsCounted w n (Step.abandons m g t there) h = record {
  waiters = omega (arith, h.waiters, length-remove t g.waiting there);
  in_flight = h.in_flight;
}
Step-IsCounted w n (Step.gives_back m g t there) h = record {
  waiters = omega (arith, h.waiters, length-remove t g.given there);
  in_flight = h.in_flight;
}
Step-IsCounted w n (Step.leaves m g t there) h = record {
  waiters = h.waiters;
  in_flight = omega (arith, h.in_flight, length-remove t g.holding there);
}

bounded :
    (capacity : ℕ) (g : Gate)
    → g.free + length g.given + length g.holding ≡ capacity
    → IsBounded capacity g
bounded capacity g slots = record { slots = slots; most = omega (arith, slots) }

Step-IsBounded :
    {m : Gauges} {g : Gate} {next : Gauges × Gate} (capacity : ℕ)
    → Step m g next
    → IsBounded capacity g
    → IsBounded capacity next.1
unfolding ask give enter abandon give_back leave
Step-IsBounded c (Step.asks m g t) h = bounded c _ h.slots
Step-IsBounded c (Step.gives m g t there left) h = bounded c _ (omega (arith, h.slots, left))
Step-IsBounded c (Step.enters m g t there) h =
    bounded c _ (omega (arith, h.slots, length-remove t g.given there))
Step-IsBounded c (Step.abandons m g t there) h = bounded c _ h.slots
Step-IsBounded c (Step.gives_back m g t there) h =
    bounded c _ (omega (arith, h.slots, length-remove t g.given there))
Step-IsBounded c (Step.leaves m g t there) h =
    bounded c _ (omega (arith, h.slots, length-remove t g.holding there))

-- In every order of the tasks at any number of gates, the two gauges are the numbers of the tasks
-- of all gates that are at `acquire` and that hold a lease; and of each gate the slots that are
-- free, given and held make up its capacity, so no more leases are held at once.
pub Reached-IsCounted :
    {capacity : ℕ} {m : Gauges} {gates : List Gate}
    → Reached capacity m gates
    → (m.waiters ≡ all_waiting gates)
      × (m.in_flight ≡ all_holding gates)
      × All (IsBounded capacity) gates
unfolding all_waiting all_holding
Reached-IsCounted Reached.begin = (refl, refl, tt)
Reached-IsCounted {capacity = c} (Reached.creates run) =
    let (waiting, holding, all) = Reached-IsCounted run in
    (omega (arith, waiting), omega (arith, holding), (bounded c (new_gate c) (omega arith), all))
Reached-IsCounted {capacity = c} (Reached.moves {m = m} before g after next step run) =
    let (waiting, holding, all) = Reached-IsCounted run in
    let (first, own, last) = All-split (IsBounded c) before g after all in
    let counted =
      Step-IsCounted (all_waiting before + all_waiting after)
        (all_holding before + all_holding after) step
        record {
          waiters = omega (arith, waiting, all_waiting-append before (g ∷ after));
          in_flight = omega (arith, holding, all_holding-append before (g ∷ after));
        } in
    (
      omega (arith, counted.waiters, all_waiting-append before (next.1 ∷ after)),
      omega (arith, counted.in_flight, all_holding-append before (next.1 ∷ after)),
      All-append (IsBounded c) before (next.1 ∷ after) first (Step-IsBounded c step own, last),
    )
