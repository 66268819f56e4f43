-- ===== src/Kmt/Sched.antt =====
-- The scheduler of kernel/src/kmt.c: `kmt_context_save` and `kmt_context_switch`, which every trap runs
-- first and last. Each body is one step of its CPU: failed draws change nothing, so the draws of other
-- CPUs may fall between them. A CPU and a task are numbers, and a saved context is opaque.
pub mod Exclusive
pub mod Draw
pub mod Parked
use os_workbench.Base.{
  ℕ, zero, suc, ◌+◌, ◌%◌, Bool, true, false, ◌&&◌, ◌||◌, not, Option, none, some, ◌==◌,
  if◌then◌else◌, update,
}
use os_workbench.Kmt.Task.{Attr, blocked}

-- `tasks`, `currents`, `lasts`, the `running` locks and the words of the tasks, the switches `ncli`
-- and `intena` of the CPUs, what a task has saved of the three, and whether its stack fences hold.
pub record State (C : Type 0) : Type 0 where
  pub tasks : ℕ → Option ℕ
  pub current : ℕ → Option ℕ
  pub last : ℕ → Option ℕ
  pub running : ℕ → Bool
  pub attr : ℕ → Attr
  pub ncli : ℕ → ℕ
  pub intena : ℕ → Bool
  pub saved_ncli : ℕ → ℕ
  pub saved_intena : ℕ → Bool
  pub context : ℕ → C
  pub fenced : ℕ → Bool

-- `a != b`, for two pointers.
abbrev pub differs : Option ℕ → Option ℕ → Bool
differs none none = false
differs none (some b) = true
differs (some a) none = true
differs (some a) (some b) = not (a == b)

-- What the loop of draws ends in; `null_read` is a draw of an empty slot, whose `attr` the code reads
-- through NULL.
pub data Pick : Type 0 where
  chosen : ℕ → Pick
  idle : Pick
  null_read : Pick

-- `if(last&&current!=last) pthread_mutex_unlock(&last->running);`
unfoldable pub let_go : Option ℕ → Option ℕ → (ℕ → Bool) → ℕ → Bool
let_go none current running = running
let_go (some l) current running =
    if differs current (some l) then update running l false else running

module _ {C : Type 0} where
  unfoldable pub save_task : Option ℕ → ℕ → C → State C → State C
  save_task none cpu c s = s
  save_task (some t) cpu c s = record s {
    context = update s.context t c;
    saved_ncli = update s.saved_ncli t (s.ncli cpu);
    saved_intena = update s.saved_intena t (s.intena cpu);
  }

  -- `kmt_context_save` on `cpu`, interrupted in context `c`.
  unfoldable pub context_save : ℕ → C → State C → State C
  unfolding let_go save_task
  context_save cpu c s =
      let s' = record s {
        running = let_go (s.last cpu) (s.current cpu) s.running;
        last = update s.last cpu (s.current cpu);
      } in
      save_task (s.current cpu) cpu c s'

  -- The loop with `cnt` to go: `draws i` is what the `i`-th call of `rand` returns.
  unfoldable pub pick : ℕ → (ℕ → ℕ) → ℕ → State C → Pick
  pick zero draws i s = idle
  pick (suc cnt) draws i s =
      let more = pick cnt draws (i + 1) s in
      if cnt == 0 then idle else elim (s.tasks (draws i % 0x40)) [
        | none ↦ null_read
        | some t ↦ if blocked (s.attr t) || s.running t then more else chosen t
      ]

-- What a switch does: goes on in a context, hangs over a broken stack fence, or has read through NULL.
pub data Switch (C : Type 0) : Type 0 where
  resumes : State C → C → Switch C
  hangs : Switch C
  null_deref : Switch C

module _ {C : Type 0} where
  -- A task is taken: its lock is won, it is current, and its switches are put back.
  unfoldable pub take_task : ℕ → ℕ → State C → State C
  take_task cpu t s = record s {
    running = update s.running t true;
    current = update s.current cpu (some t);
    ncli = update s.ncli cpu (s.saved_ncli t);
    intena = update s.intena cpu (s.saved_intena t);
  }

  -- What follows the loop of draws.
  unfoldable pub switch_to : (idle_context : C) → ℕ → State C → Pick → Switch C
  switch_to idle_context cpu s (chosen t) =
      if s.fenced t then resumes (take_task cpu t s) (s.context t) else hangs
  switch_to idle_context cpu s idle =
      resumes (record s { current = update s.current cpu none }) idle_context
  switch_to idle_context cpu s null_read = null_deref

  -- `kmt_context_switch` on `cpu`; `idle_context` is that of the CPU's idle loop.
  unfoldable pub context_switch : (idle_context : C) → ℕ → (ℕ → ℕ) → State C → Switch C
  context_switch idle_context cpu draws s = switch_to idle_context cpu s (pick 10000 draws 0 s)
