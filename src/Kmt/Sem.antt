-- ===== src/Kmt/Sem.antt =====
-- The semaphore of kernel/src/kmt.c: `kmt_sem_init`, `kmt_sem_wait`, `kmt_sem_signal`, with
-- `sem_add_task` and `sem_remove_task`. Each body holds `sem->lock` and has interrupts closed, so a
-- call is one step up to the `_yield` of a task that was put to sleep. The `int` value is its 32-bit
-- pattern: a pattern from 2 ^ 31 on is negative.
pub mod Inv
pub mod Queue
pub mod Sleep
use os_workbench.Base.{
  ℕ, ◌+◌, ◌-◌, ◌%◌, ◌^◌, Bool, true, false, ◌||◌, List, ◌==◌, leb, if◌then◌else◌, get_or, set,
  replicate, update,
}
use os_workbench.Kmt.Task.{Attr}

pub record Sem : Type 0 where
  pub value : ℕ
  pub pool : List ℕ
  pub head : ℕ
  pub tail : ℕ

-- One semaphore and the attribute words of the tasks.
pub record State : Type 0 where
  pub sem : Sem
  pub attr : ℕ → Attr

abbrev pub pool_len : ℕ
pool_len = 20

abbrev pub negative : ℕ → Bool
negative v = leb (2 ^ 31) v

-- `TASK_SLEEP` set, and cleared, in the word of task `t`.
abbrev pub set_sleep : (ℕ → Attr) → ℕ → Bool → ℕ → Attr
set_sleep attr t b = update attr t (record (attr t) { sleep = b })

-- The name is left out; the pool keeps what it holds.
unfoldable pub sem_init : ℕ → Sem → Sem
sem_init value m = record m { value = value; head = 0; tail = 0 }

-- `sem_add_task`, for the calling task.
unfoldable pub sem_add_task : ℕ → State → State
sem_add_task current s =
    let tail = s.sem.tail + 1 in
    record {
      sem = record (s.sem) {
        pool = set s.sem.pool s.sem.tail current;
        tail = if leb pool_len tail then tail - pool_len else tail;
      };
      attr = set_sleep s.attr current true;
    }

unfoldable pub sem_remove_task : State → State
sem_remove_task s =
    let head = s.sem.head + 1 in
    record {
      sem = record (s.sem) { head = if leb pool_len head then head - pool_len else head };
      attr = set_sleep s.attr (get_or s.sem.pool s.sem.head 0) false;
    }

-- `kmt_sem_wait` by task `current`: the state, and whether the task now sleeps in the pool.
unfoldable pub sem_wait : ℕ → State → State × Bool
unfolding sem_add_task
sem_wait current s =
    let v = (s.sem.value + 2 ^ 32 - 1) % 2 ^ 32 in
    let s' = record s { sem = record (s.sem) { value = v } } in
    if negative v then (sem_add_task current s', true) else (s', false)

unfoldable pub sem_signal : State → State
unfolding sem_remove_task
sem_signal s =
    let v = (s.sem.value + 1) % 2 ^ 32 in
    let s' = record s { sem = record (s.sem) { value = v } } in
    if negative v || v == 0 then sem_remove_task s' else s'
