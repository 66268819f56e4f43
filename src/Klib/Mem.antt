-- ===== src/Klib/Mem.antt =====
-- A memory of bytes: pointers are indices, and an access outside is a fault.
use os_workbench.Base.{
  ℕ, ◌≤◌, ◌<◌, ◌≡◌, none, some, List, arith, ltb, if◌then◌else◌, length, get_elem?, set,
}
use os_workbench.Base.Run.{Run, ok, fault}

abbrev pub Mem : Type 0
Mem = List ℕ

unfoldable pub load : Mem → ℕ → Run ℕ
load m p = elim (get_elem? m p) [ none ↦ fault | some c ↦ ok c ]

unfoldable pub store : Mem → ℕ → ℕ → Run Mem
store m p c = if ltb p (length m) then ok (set m p c) else fault

pub store-ok : (m : Mem) (p c : ℕ) → p < length m → store m p c ≡ ok (set m p c)
unfolding store
store-ok m p c h = ground arith

pub load-ok : (m : Mem) (p c : ℕ) → get_elem? m p ≡ some c → load m p ≡ ok c
unfolding load
load-ok m p c h = ground (arith, h)

pub load-none : (m : Mem) (p : ℕ) → get_elem? m p ≡ none → load m p ≡ fault
unfolding load
load-none m p h = ground (arith, h)

pub store-fault : (m : Mem) (p c : ℕ) → length m ≤ p → store m p c ≡ fault
unfolding store
store-fault m p c h = ground arith
