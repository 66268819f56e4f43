-- ===== src/Kmt/Tests/Sched.antt =====
-- Runs of the scheduler and the task table.
use os_workbench.Base.{
  ℕ, zero, suc, ◌+◌, ◌<◌, ◌≡◌, ◌≢◌, refl, arith, Bool, true, false, none, some, update, inl,
}
use os_workbench.Kmt.Task.{runnable}
use os_workbench.Kmt.Sched.{
  State, resumes, chosen, pick, context_save, context_switch, switch_to, take_task,
}
use os_workbench.Kmt.Sched.Draw.{Ready, Passed, pick-first}
use os_workbench.Kmt.Sched.Exclusive.{Reach, begin, next, save, switch, Reach-exclusive_run}
use os_workbench.Kmt.Sched.Parked.{Away, here, saves, switches, context_switch-context_save}
use os_workbench.Kmt.Table.{Table, add_task}
use os_workbench.Kmt.Table.Search.{IsValid, add_task-slot}

-- Task `n` stands in slot `n`, task 0 is a zombie, and no CPU runs a task. A context is a number.
abbrev boot : State ℕ
boot = record {
  tasks = λ i. some i;
  current = λ _. none;
  last = λ _. none;
  running = λ _. false;
  attr = λ t. record runnable { zombie = zombie t };
  ncli = λ _. 1;
  intena = λ _. false;
  saved_ncli = λ t. t;
  saved_intena = λ _. true;
  context = λ t. 100 + t;
  fenced = λ _. true;
}
  where
    zombie : ℕ → Bool
    zombie zero = true
    zombie (suc t) = false

boot_zero : Passed boot 0
boot_zero = record { task = 0; slot = refl; refused = refl }

boot_one : Ready boot 1 1
boot_one = record { slot = refl; awake = refl; unlocked = refl }

-- A switch whose first draw falls on a ready task takes it.
switched :
    (cpu t : ℕ) (s : State ℕ)
    → Ready s t t
    → s.fenced t ≡ true
    → context_switch 7 cpu (λ _. t) s ≡ resumes (take_task cpu t s) (s.context t)
unfolding context_switch switch_to
switched cpu t s r f =
    let e : pick 10000 (λ _. t) 0 s ≡ chosen t =
      pick-first 10000 (λ _. t) 0 0 t s (λ j h. absurd (omega arith)) r (omega arith) in
    rw (e, f) refl

-- CPU 0 runs task 1, and is interrupted.
abbrev ran : State ℕ
ran = take_task 0 1 boot

ran-Reach : Reach boot (context_save 0 55 ran)
ran-Reach = next (next begin (switch 0 (λ _. 1) 7 _ (switched 0 1 boot boot_one refl))) (save 0 55)

ran-current : (context_save 0 55 ran).current 0 ≡ some 1
unfolding context_save take_task
ran-current = refl

Reach-exclusive_run_example : ◌≡◌ {A = ℕ} 0 0 × ((context_save 0 55 ran).running 1 ≡ true)
Reach-exclusive_run_example =
    Reach-exclusive_run (λ cpu. (refl, refl)) ran-Reach 0 0 1 ran-current (inl ran-current)

-- CPU 0 goes on to task 2, whose first trap lets task 1 go, and CPU 3 takes task 1 up.
abbrev left : State ℕ
left = context_save 0 66 (take_task 0 2 (context_save 0 55 ran))

two-Ready : Ready (context_save 0 55 ran) 2 2
unfolding context_save take_task
two-Ready = record { slot = refl; awake = refl; unlocked = refl }

two_fenced : (context_save 0 55 ran).fenced 2 ≡ true
unfolding context_save take_task
two_fenced = refl

one-Ready : Ready left 1 1
unfolding context_save take_task
one-Ready = record { slot = refl; awake = refl; unlocked = refl }

one_fenced : left.fenced 1 ≡ true
unfolding context_save take_task
one_fenced = refl

other : (take_task 0 2 (context_save 0 55 ran)).current 0 ≡ some 1 → ⊥
unfolding take_task
other e = cc e

one-Away : Away 1 (context_save 0 55 ran) left
one-Away =
    saves 0 66
      (switches 0 (λ _. 2) 7 _ here (switched 0 2 (context_save 0 55 ran) two-Ready two_fenced))
      other

one_current : (take_task 3 1 left).current 3 ≡ some 1
unfolding take_task
one_current = refl

ran_one : ran.current 0 ≡ some 1
unfolding take_task
ran_one = refl

context_switch-context_save_example :
    (left.context 1 ≡ 55)
    × ((take_task 3 1 left).ncli 3 ≡ ran.ncli 0)
    × ((take_task 3 1 left).intena 3 ≡ ran.intena 0)
context_switch-context_save_example =
    context_switch-context_save 0 3 1 55 (left.context 1) 7 (λ _. 1) ran left (take_task 3 1 left)
      ran_one one-Away (switched 3 1 left one-Ready one_fenced) one_current

-- Tasks 10 and 12 in slots 0 and 2.
abbrev table : Table
table = record {
  tasks = update (update (λ _. none) 0 (some 10)) 2 (some 12);
  last_pid = 1;
  pid = update (update (λ _. 0) 10 0) 12 2;
  attr = λ _. runnable;
}

table-IsValid : IsValid table
table-IsValid i t e = ground (arith, e)

add_task-slot_example :
    (i : ℕ) × (s' : Table) × (add_task 0x40 7 table ≡ some s')
    × (i < 0x40)
    × (table.tasks i ≡ none)
    × (s'.tasks ≡ update table.tasks i (some 7))
    × (s'.pid 7 ≡ i)
    × (IsValid table → ((k : ℕ) → table.tasks k ≢ some 7) → IsValid s')
add_task-slot_example = add_task-slot 7 3 table (omega arith) (omega arith) refl

abbrev crowded : Table
crowded = record table { tasks = λ i. some i }
