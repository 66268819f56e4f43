-- ===== src/Kmt/Tests/Spin.antt =====
-- Runs of the interrupt switch and the spinlock.
use os_workbench.Base.{ℕ, ◌≡◌, ◌≢◌, refl, arith, true, false, some}
use os_workbench.Kmt.Intr.{Cpu, IsValid, Nest, done, region, run, run-Nest}
use os_workbench.Kmt.Spin.{returns}
use os_workbench.Kmt.Spin.Nest.{then_do, locks, unlocks, free, unlocks-locks}
use os_workbench.Kmt.Spin.Race.{
  State, Reach, begin, next, holds, owns?, see_free, win, set_reen, set_owner, relock, see_locked,
  Reach-exclusive, Reach-owner_read,
}

abbrev cpu : Cpu
cpu = record { if_on = true; ncli = 0; intena = false }

cpu-IsValid : IsValid cpu
cpu-IsValid = record { inside = λ _. refl; outside = λ e. cc e }

abbrev nested : Nest
nested = region (region done done) (region done done)

run-Nest_example : run nested cpu ≡ some cpu
run-Nest_example = run-Nest nested cpu cpu-IsValid (omega arith)

unlocks-locks_example : then_do (locks 5 3 cpu (free 9)) (unlocks 5 3) ≡ returns cpu (free 0)
unlocks-locks_example = unlocks-locks 5 9 2 cpu cpu-IsValid (omega arith) (omega arith)

-- Thread 1 takes the lock, goes for it again, and thread 2 finds it locked.
abbrev raced : (s : State) × Reach s
raced = (
  _,
  next 2
      (next 1
        (next 1
          (next 1 (next 1 (next 1 begin (see_free refl refl)) (win refl refl)) (set_reen refl))
          (set_owner refl))
        (relock refl))
      (see_locked refl refl),
)

Reach-exclusive_example : ◌≡◌ {A = ℕ} 1 1
Reach-exclusive_example = Reach-exclusive raced.1 1 1 refl refl

Reach-owner_read_example :
    (holds (raced.0.pc 1) ≡ true) × (raced.0.locked ≡ true) × (raced.0.pc 1 ≢ owns?)
Reach-owner_read_example = Reach-owner_read raced.1 1 refl
