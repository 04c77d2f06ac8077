-- ===== src/GpuGate.antt =====
-- services/gateway/src/local_ai_hub/gpu.py and the gauges of observability.py: the leases of the gates
-- of all backends, and the two gauges that the gates share. A task runs without another from one
-- `await` to the next, and is known by a number.
pub mod Runs
use agent_ui.Prelude.{ℕ, suc, ◌+◌, ◌-◌, List, [], ◌∷◌, ◌++◌, nat_beq, if◌then◌else◌}

-- A gate with its `asyncio.Semaphore`, whose slots are free, given to a task that `release` or
-- `acquire` lets through and that is not running yet, or held by a task inside of its lease.
pub record Gate : Type 0 where
  pub free : ℕ
  -- the tasks at `acquire` that wait, and those that were given a slot
  pub waiting : List ℕ
  pub given : List ℕ
  pub holding : List ℕ

-- `GpuGate(capacity)`
abbrev pub new_gate : ℕ → Gate
new_gate capacity = record { free = capacity; waiting = []; given = []; holding = [] }

-- GPU_WAITERS and GPU_IN_FLIGHT, of the process
pub record Gauges : Type 0 where
  pub waiters : ℕ
  pub in_flight : ℕ

abbrev pub no_tasks : Gauges
no_tasks = record { waiters = 0; in_flight = 0 }

unfoldable pub remove : ℕ → List ℕ → List ℕ
remove t [] = []
remove t (u ∷ us) = if nat_beq t u then us else u ∷ remove t us

-- A task comes to `acquire`.
unfoldable pub ask : ℕ → Gauges × Gate → Gauges × Gate
ask t (m, g) = (record m { waiters = suc m.waiters }, record g { waiting = t ∷ g.waiting })

-- The semaphore gives a free slot to a task at `acquire`.
unfoldable pub give : ℕ → Gate → Gate
unfolding remove
give t g = record g { free = g.free - 1; waiting = remove t g.waiting; given = t ∷ g.given }

-- `acquire` returns.
unfoldable pub enter : ℕ → Gauges × Gate → Gauges × Gate
unfolding remove
enter t (m, g) = (
  record { waiters = m.waiters - 1; in_flight = suc m.in_flight },
  record g { given = remove t g.given; holding = t ∷ g.holding },
)

-- `acquire` is cancelled while the task waits.
unfoldable pub abandon : ℕ → Gauges × Gate → Gauges × Gate
unfolding remove
abandon t (m, g) = (record m { waiters = m.waiters - 1 }, record g { waiting = remove t g.waiting })

-- `acquire` is cancelled when the task was given a slot, which `acquire` frees again.
unfoldable pub give_back : ℕ → Gauges × Gate → Gauges × Gate
unfolding remove
give_back t (m, g) =
    (record m { waiters = m.waiters - 1 }, record g { free = suc g.free; given = remove t g.given })

-- The body ends, with an exception or without one.
unfoldable pub leave : ℕ → Gauges × Gate → Gauges × Gate
unfolding remove
leave t (m, g) = (
  record m { in_flight = m.in_flight - 1 },
  record g { free = suc g.free; holding = remove t g.holding },
)
