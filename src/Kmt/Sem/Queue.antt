-- ===== src/Kmt/Sem/Queue.antt =====
-- The semaphore of kernel/src/kmt.c against the semaphore of the textbooks: a count of credits and a
-- first-come-first-served queue.
use os_workbench.Base.{
  ℕ, ◌+◌, ◌-◌, ◌^◌, ◌<◌, ◌≡◌, ◌≢◌, Bool, true, false, List, [], ◌∷◌, ◌++◌, arith, ◌==◌,
  if◌then◌else◌, get_or, get_or-set_self,
}
use os_workbench.Base.Window.{window-pos, window-set}
use os_workbench.Kmt.Sem.{Sem, State, pool_len, sem_wait, sem_signal}
use os_workbench.Kmt.Sem.Inv.{IsValid, waiters, credits, queue, wait-IsValid, signal-IsValid}

pub record Ideal : Type 0 where
  pub count : ℕ
  pub line : List ℕ

-- What a semaphore stands for.
abbrev pub view : Sem → Ideal
view m = record { count = credits m.value; line = queue m }

-- P by task `t`, and whether it sleeps.
unfoldable pub acquire : ℕ → Ideal → Ideal × Bool
acquire t i =
    if i.count == 0
    then (record i { line = i.line ++ (t ∷ []) }, true)
    else (record i { count = i.count - 1 }, false)

-- V: the credit goes to the first task in line.
unfoldable pub hand_on : ℕ → List ℕ → Ideal
hand_on c [] = record { count = c + 1; line = [] }
hand_on c (t ∷ ts) = record { count = c; line = ts }

unfoldable pub release : Ideal → Ideal
unfolding hand_on
release i = hand_on i.count i.line

-- On a valid semaphore with fewer than 20 tasks waiting, `kmt_sem_wait` is P: it takes a credit, or
-- puts the caller at the end of the line, and leaves a valid semaphore.
pub sem_wait-acquire :
    (t : ℕ) (s : State)
    → IsValid s.sem
    → waiters s.sem.value < pool_len
    → let (s', asleep) = sem_wait t s in
      IsValid s'.sem × ((view s'.sem, asleep) ≡ acquire t (view s.sem))
unfolding sem_wait acquire
sem_wait-acquire t s v h =
    let m = s.sem in
    (
      wait-IsValid t s v h,
      ground (arith, window-set m.pool pool_len m.head (waiters m.value) m.tail t),
    )

-- On a valid semaphore whose value is below the largest `int`, `kmt_sem_signal` is V: the first task
-- in line goes on, with nobody in line there is one more credit, and the semaphore stays valid.
pub sem_signal-release :
    (s : State)
    → IsValid s.sem
    → credits s.sem.value < 2 ^ 31 - 1
    → let s' = sem_signal s in IsValid s'.sem × (view s'.sem ≡ release (view s.sem))
unfolding sem_signal release
sem_signal-release s v h =
    let m = s.sem in
    (signal-IsValid s v h, ground (arith, window-pos m.pool pool_len m.head (waiters m.value)))

-- With 20 tasks in the pool, `wait` by task `t` overwrites the entry of the task that is first in
-- line. The next `signal` then clears the sleep bit of `t`, and leaves that of every other task,
-- the first in line among them, as it was.
pub sem_wait-overrun :
    (t u : ℕ) (s : State)
    → IsValid s.sem
    → waiters s.sem.value ≡ pool_len
    → u ≢ t
    → let s' = (sem_wait t s).0 in
      let s'' = sem_signal s' in
      (get_or s'.sem.pool s.sem.head 0 ≡ t)
      × ((s''.attr t).sleep ≡ false)
      × ((s''.attr u).sleep ≡ (s.attr u).sleep)
unfolding sem_wait sem_signal
sem_wait-overrun t u s v h ne = let m = s.sem in ground (arith, get_or-set_self m.pool m.head t 0)
