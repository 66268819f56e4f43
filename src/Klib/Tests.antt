-- ===== src/Klib/Tests.antt =====
-- Runs of string.c of abstract-machine/libs/klib/src on a small memory, and of its stdlib.c.
use os_workbench.Base.{ℕ, ◌≡◌, refl, true, false, arith, List, [], ◌∷◌, inr, ◌⊎◌}
use os_workbench.Base.Run.{ok}
use os_workbench.Klib.Mutex.{
  Mutex, Step, Only, atomic_xchg, lock_round, mutex_unlock, initial, here, next, calls,
  Reach_served,
}
use os_workbench.Klib.Mem.{Mem}
use os_workbench.Klib.Str.{strcpy}
use os_workbench.Klib.Str.Len.{CStr}
use os_workbench.Klib.Str.Copy.{Copied, strcpy-Copied}

-- "ab" at 0, room at 3, "ac" at 9.
abbrev m : Mem
m = b'a' ∷ b'b' ∷ 0 ∷ 0 ∷ 0 ∷ 0 ∷ 0 ∷ 0 ∷ 0 ∷ b'a' ∷ b'c' ∷ 0 ∷ []

abbrev ab : List ℕ
ab = b'a' ∷ b'b' ∷ []

abbrev ac : List ℕ
ac = b'a' ∷ b'c' ∷ []

ab_there : CStr m 0 ab
ab_there = (refl, omega arith, (refl, omega arith, refl))

ac_there : CStr m 9 ac
ac_there = (refl, omega arith, (refl, omega arith, refl))

strcpy-Copied_example : (m' : Mem) × (strcpy m 4 0 ≡ ok m') × Copied m m' 4 ab
strcpy-Copied_example = strcpy-Copied m 4 0 ab ab_there (omega arith) (inr (omega arith))

-- Thread 0 holds the mutex, and thread 1 spins.
abbrev contended : Mutex
contended = lock_round 1 (lock_round 0 initial)

Reach_served_example :
    ((contended.locked ≡ false)
      × Step contended (lock_round 1 contended)
      × Only 1 (lock_round 1 contended))
    ⊎ ((contended.locked ≡ true)
        × ((k : ℕ) × Only k contended
            × Step contended (mutex_unlock k contended)
            × Step (mutex_unlock k contended) (lock_round 1 (mutex_unlock k contended))
            × Only 1 (lock_round 1 (mutex_unlock k contended))))
unfolding lock_round atomic_xchg
Reach_served_example =
    Reach_served contended 1 (next (next here (calls 0 refl)) (calls 1 refl)) refl
