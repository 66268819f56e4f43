-- ===== src/Kmt/Sem/Inv.antt =====
-- The invariant of a semaphore: a negative value counts the tasks in the pool.
use os_workbench.Base.{ℕ, ◌-◌, ◌^◌, ◌≤◌, ◌<◌, ◌≡◌, List, arith, if◌then◌else◌, length, length-set}
use os_workbench.Base.Window.{place, window}
use os_workbench.Kmt.Sem.{Sem, State, pool_len, negative, sem_init, sem_wait, sem_signal}

-- How many tasks a value counts as waiting, and how many waits it lets pass.
abbrev pub waiters : ℕ → ℕ
waiters v = if negative v then 2 ^ 32 - v else 0

abbrev pub credits : ℕ → ℕ
credits v = if negative v then 0 else v

pub record IsValid (m : Sem) : Type 0 where
  pub word : m.value < 2 ^ 32
  pub room : length m.pool ≡ pool_len
  pub head_in : m.head < pool_len
  pub few : waiters m.value ≤ pool_len
  pub tail_at : m.tail ≡ place pool_len m.head (waiters m.value)

-- The waiting tasks, first come first.
abbrev pub queue : Sem → List ℕ
queue m = window m.pool pool_len m.head (waiters m.value)

pub init-IsValid :
    (v : ℕ) (m : Sem) → v < 2 ^ 31 → length m.pool ≡ pool_len → IsValid (sem_init v m)
unfolding sem_init
init-IsValid v m h k = ground arith

-- `wait` keeps the invariant while fewer than 20 tasks wait.
pub wait-IsValid :
    (t : ℕ) (s : State)
    → IsValid s.sem
    → waiters s.sem.value < pool_len
    → IsValid (sem_wait t s).0.sem
unfolding sem_wait
wait-IsValid t s v h = ground (arith, length-set s.sem.pool s.sem.tail t)

-- `signal` keeps the invariant below the largest value.
pub signal-IsValid :
    (s : State) → IsValid s.sem → credits s.sem.value < 2 ^ 31 - 1 → IsValid (sem_signal s).sem
unfolding sem_signal
signal-IsValid s v h = ground arith
