-- ===== src/Kmt/Spin/Nest.antt =====
-- Nested calls of `kmt_spin_lock` and `kmt_spin_unlock` by one task.
use os_workbench.Base.{
  ℕ, zero, suc, ◌+◌, ◌-◌, ◌^◌, ◌<◌, ◌≤◌, ap, refl, ==_refl, ◌≡◌, true, false, arith,
}
use os_workbench.Kmt.Intr.{
  Cpu, IsValid, closed, intr_close-closed, closed-IsValid, intr_open-closed,
}
use os_workbench.Kmt.Spin.{Spinlock, Outcome, opened, returns, spins, halts, spin_lock, spin_unlock}

abbrev pub then_do : Outcome → (Cpu → Spinlock → Outcome) → Outcome
then_do (returns c lk) k = k c lk
then_do spins k = spins
then_do halts k = halts

-- `n` calls in a row.
unfoldable pub locks : ℕ → ℕ → Cpu → Spinlock → Outcome
locks t zero c lk = returns c lk
locks t (suc n) c lk = then_do (locks t n c lk) (spin_lock t)

unfoldable pub unlocks : ℕ → ℕ → Cpu → Spinlock → Outcome
unlocks t zero c lk = returns c lk
unlocks t (suc n) c lk = then_do (spin_unlock t c lk) (unlocks t n)

-- The lock held by `t`, `n` deep.
abbrev pub held : ℕ → ℕ → Spinlock
held t n = record { reen = n; owner = t; locked = true }

abbrev pub free : ℕ → Spinlock
free r = record { reen = r; owner = 0; locked = false }

-- The switch has room for the two closes that `kmt_spin_lock` holds at once.
abbrev pub HasRoom : Cpu → Type 0
HasRoom c = c.ncli + 2 ≤ 2 ^ 31

lock-free :
    (t r : ℕ) (c : Cpu)
    → IsValid c
    → HasRoom c
    → spin_lock t c (free r) ≡ returns (closed c) (held t 1)
unfolding spin_lock
lock-free t r c v m = rw (intr_close-closed c (omega (arith, m))) (
    rw (intr_close-closed (closed c) (omega (arith, m)))
      (rw (intr_open-closed (closed c) (closed-IsValid v) (omega (arith, m)), opened) refl))

lock-held :
    (t n : ℕ) (c : Cpu)
    → IsValid c
    → HasRoom c
    → n + 1 < 2 ^ 32
    → spin_lock t (closed c) (held t n) ≡ returns (closed c) (held t (n + 1))
unfolding spin_lock
lock-held t n c v m h = rw (intr_close-closed (closed c) (omega (arith, m))) (
    rw (==_refl t) (
      rw (intr_open-closed (closed c) (closed-IsValid v) (omega (arith, m)), opened)
        (ap (λ k. returns (closed c) (held t k)) (omega arith))))

unlock-last :
    (t : ℕ) (c : Cpu)
    → IsValid c
    → HasRoom c
    → spin_unlock t (closed c) (held t 1) ≡ returns c (free 0)
unfolding spin_unlock
unlock-last t c v m = rw (==_refl t) (rw (intr_open-closed c v (omega (arith, m)), opened) refl)

unlock-held :
    (t n : ℕ) (c : Cpu)
    → 1 < n
    → n < 2 ^ 32
    → spin_unlock t c (held t n) ≡ returns c (held t (n - 1))
unfolding spin_unlock
unlock-held t n c h k = ground arith

-- `n + 1` nested locks of a free lock all return: the task owns the lock with that depth, and
-- interrupts are off, closed once.
pub locks-held :
    (t r n : ℕ) (c : Cpu)
    → IsValid c
    → HasRoom c
    → n + 1 < 2 ^ 32
    → locks t (suc n) c (free r) ≡ returns (closed c) (held t (n + 1))
unfolding locks
locks-held t r zero c v m h = ground (arith, lock-free t r c v m)
locks-held t r (suc n) c v m h = ground (arith, locks-held t r n c v, lock-held t (n + 1) c v m)

unlocks-free :
    (t n : ℕ) (c : Cpu)
    → IsValid c
    → HasRoom c
    → n + 1 < 2 ^ 32
    → unlocks t (suc n) (closed c) (held t (n + 1)) ≡ returns c (free 0)
unfolding unlocks
unlocks-free t zero c v m h = ground (arith, unlock-last t c v m)
unlocks-free t (suc n) c v m h =
    ground (arith, unlock-held t (n + 2) (closed c), unlocks-free t n c v m)

-- From a free lock and a CPU whose interrupt switch is in order, with room for two more closes, fewer
-- than 2 ^ 32 nested locks and as many unlocks free the lock and put the switch back as it was; no
-- call spins and no `Assert` fails.
pub unlocks-locks :
    (t r n : ℕ) (c : Cpu)
    → IsValid c
    → HasRoom c
    → n + 1 < 2 ^ 32
    → then_do (locks t (suc n) c (free r)) (unlocks t (suc n)) ≡ returns c (free 0)
unlocks-locks t r n c v m h = rw (locks-held t r n c v m h) (unlocks-free t n c v m h)
