-- ===== src/Kmt/Spin.antt =====
-- The spinlock of kernel/src/kmt.c: `kmt_spin_lock` and `kmt_spin_unlock` as one CPU runs them.
-- `Nest` has the laws of nested calls, `Race` the interleavings of several CPUs.
pub mod Nest
pub mod Race
use os_workbench.Base.{
  ℕ, ◌+◌, ◌-◌, ◌%◌, ◌^◌, Bool, true, false, ◌&&◌, Option, none, some, ◌==◌, if◌then◌else◌,
}
use os_workbench.Kmt.Intr.{Cpu, intr_close, intr_open}

-- A task is a number, and 0 is NULL.
pub record Spinlock : Type 0 where
  pub reen : ℕ
  pub owner : ℕ
  pub locked : Bool

-- What a call ends in: `spins` waits for another CPU, `halts` is a failed `Assert`.
pub data Outcome : Type 0 where
  returns : Cpu → Spinlock → Outcome
  spins : Outcome
  halts : Outcome

abbrev pub opened : Cpu → Spinlock → Outcome
opened c lk = elim (intr_open c) [ none ↦ halts | some d ↦ returns d lk ]

abbrev pub spun : ℕ → Option Cpu → Spinlock → Outcome
spun current none lk = halts
spun current (some c) lk =
    if lk.locked
    then (if lk.owner == current
        then opened c (record lk { reen = (lk.reen + 1) % 2 ^ 32 })
        else spins)
    else (elim (intr_close c) [
      | none ↦ halts
      | some d ↦ opened d (record { reen = 1; owner = current; locked = true })
    ])

-- `kmt_spin_lock` by the task `current`, with nobody else touching the lock meanwhile.
unfoldable pub spin_lock : ℕ → Cpu → Spinlock → Outcome
spin_lock current cpu lk = spun current (intr_close cpu) lk

-- `kmt_spin_unlock`. A task that does not own the lock only gets a line in the log.
unfoldable pub spin_unlock : ℕ → Cpu → Spinlock → Outcome
spin_unlock current cpu lk =
    if lk.locked
    then (if lk.owner == current
        then (let left = (lk.reen + 2 ^ 32 - 1) % 2 ^ 32 in
            if left == 0
            then opened cpu (record { reen = left; owner = 0; locked = false })
            else returns cpu (record lk { reen = left }))
        else returns cpu lk)
    else halts

unfoldable pub spin_init : Spinlock → Spinlock
spin_init lk = record lk { locked = false }
