-- ===== src/Kmt/Tests/Sem.antt =====
-- Runs of the semaphore.
use os_workbench.Base.{◌+◌, ◌-◌, ◌^◌, ◌<◌, ◌≡◌, refl, arith, true, false, replicate, set, get_or}
use os_workbench.Kmt.Task.{runnable}
use os_workbench.Kmt.Sem.{Sem, State, sem_init, sem_wait, sem_signal}
use os_workbench.Kmt.Sem.Inv.{IsValid, waiters, credits, init-IsValid}
use os_workbench.Kmt.Sem.Queue.{
  view, acquire, release, sem_wait-acquire, sem_signal-release, sem_wait-overrun,
}
use os_workbench.Kmt.Sem.Sleep.{Agrees, Reach, begin, wait, signal, Reach-Agrees, Reach-passed}

abbrev raw : Sem
raw = record { value = 0; pool = replicate 20 0; head = 7; tail = 3 }

-- One credit, and nobody asleep.
abbrev fresh : State
fresh = record { sem = sem_init 1 raw; attr = λ _. runnable }

fresh-IsValid : IsValid fresh.sem
fresh-IsValid = init-IsValid 1 raw (omega arith) refl

fresh-Agrees : Agrees fresh
unfolding sem_init
fresh-Agrees = record { valid = fresh-IsValid; once = tt; asleep = λ t. refl }

abbrev after : State
after = sem_signal (sem_wait 5 (sem_wait 4 fresh).0).0

-- Task 4 passes, task 5 sleeps, and a signal wakes it.
wakes_five : Reach fresh after 2 1
unfolding sem_init sem_wait sem_signal
wakes_five = signal (wait 5 (wait 4 begin refl (omega arith)) refl (omega arith)) (omega arith)

Reach-Agrees_example : Agrees after
Reach-Agrees_example = Reach-Agrees fresh-Agrees wakes_five

Reach-passed_example : 2 + credits after.sem.value ≡ credits fresh.sem.value + 1
Reach-passed_example = Reach-passed fresh-Agrees wakes_five

few : waiters fresh.sem.value < 20
unfolding sem_init
few = omega arith

sem_wait-acquire_example :
    let (s', asleep) = sem_wait 4 fresh in
    IsValid s'.sem × ((view s'.sem, asleep) ≡ acquire 4 (view fresh.sem))
sem_wait-acquire_example = sem_wait-acquire 4 fresh fresh-IsValid few

not_full : credits fresh.sem.value < 2 ^ 31 - 1
unfolding sem_init
not_full = omega arith

sem_signal-release_example :
    let s' = sem_signal fresh in IsValid s'.sem × (view s'.sem ≡ release (view fresh.sem))
sem_signal-release_example = sem_signal-release fresh fresh-IsValid not_full

-- Twenty tasks wait, task 1 first.
abbrev full : State
full = record {
  sem = record { value = 2 ^ 32 - 20; pool = set (replicate 20 2) 7 1; head = 7; tail = 7 };
  attr = λ _. record runnable { sleep = true };
}

full-IsValid : IsValid full.sem
full-IsValid = record {
  word = omega arith;
  room = refl;
  head_in = omega arith;
  few = omega arith;
  tail_at = refl;
}

sem_wait-overrun_example :
    let s' = (sem_wait 30 full).0 in
    let s'' = sem_signal s' in
    (get_or s'.sem.pool full.sem.head 0 ≡ 30)
    × ((s''.attr 30).sleep ≡ false)
    × ((s''.attr 1).sleep ≡ (full.attr 1).sleep)
sem_wait-overrun_example = sem_wait-overrun 30 1 full full-IsValid refl (omega arith)
