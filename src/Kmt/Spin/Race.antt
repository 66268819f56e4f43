-- ===== src/Kmt/Spin/Race.antt =====
-- `kmt_spin_lock` and `kmt_spin_unlock` of kernel/src/kmt.c with many CPUs at once, one step for each
-- access to the shared lock. Each thread runs on its own CPU with interrupts closed over these steps.
use os_workbench.Base.{
  ℕ, ◌+◌, ◌-◌, ◌^◌, ◌<◌, ◌≡◌, ◌≢◌, Bool, true, false, Option, none, some, arith, update,
}

-- Where a thread stands: `idle` outside; in `kmt_spin_lock` `owns?` having read `locked` as set,
-- `waits` in the inner loop, `takes` at the exchange, `sets_reen` and `sets_owner` behind it;
-- `inside` holding the lock, `again` locking it once more; in `kmt_spin_unlock` `clears` about to
-- reset `owner`, and `unlocks` about to reset `locked`.
pub data Pc : Type 0 where
  idle owns? waits takes sets_reen sets_owner inside again clears unlocks : Pc

-- The thread won the exchange and has not yet reset `locked`.
abbrev pub holds : Pc → Bool
holds idle = false
holds owns? = false
holds waits = false
holds takes = false
holds _ = true

-- `owner` is the thread's.
abbrev pub owns : Pc → Bool
owns inside = true
owns again = true
owns clears = true
owns _ = false

-- `reen` has been set for the thread and is not 0.
abbrev pub counts : Pc → Bool
counts sets_owner = true
counts inside = true
counts again = true
counts _ = false

pub record State : Type 0 where
  pub locked : Bool
  pub reen : ℕ
  pub owner : Option ℕ
  pub pc : ℕ → Pc

abbrev pub at : State → ℕ → Pc → State
at s t p = record s { pc = update s.pc t p }

-- One access by thread `t`. The two steps that add to `reen`, a `uint32_t`, are those below the
-- wrap: nobody nests 2 ^ 32 calls.
pub data Step (t : ℕ) (s : State) : State → Type 0 where
  see_locked : s.pc t ≡ idle → s.locked ≡ true → Step t s (at s t owns?)
  see_free : s.pc t ≡ idle → s.locked ≡ false → Step t s (at s t takes)
  own :
      s.pc t ≡ owns?
      → s.owner ≡ some t
      → s.reen + 1 < 2 ^ 32
      → Step t s (record (at s t inside) { reen = s.reen + 1 })
  other : s.pc t ≡ owns? → s.owner ≢ some t → Step t s (at s t waits)
  wait_locked : s.pc t ≡ waits → s.locked ≡ true → Step t s s
  wait_free : s.pc t ≡ waits → s.locked ≡ false → Step t s (at s t takes)
  lose : s.pc t ≡ takes → s.locked ≡ true → Step t s s
  win : s.pc t ≡ takes → s.locked ≡ false → Step t s (record (at s t sets_reen) { locked = true })
  set_reen : s.pc t ≡ sets_reen → Step t s (record (at s t sets_owner) { reen = 1 })
  set_owner : s.pc t ≡ sets_owner → Step t s (record (at s t inside) { owner = some t })
  relock : s.pc t ≡ inside → Step t s (at s t again)
  deeper :
      s.pc t ≡ again
      → s.owner ≡ some t
      → s.reen + 1 < 2 ^ 32
      → Step t s (record (at s t inside) { reen = s.reen + 1 })
  shallower : s.pc t ≡ inside → 1 < s.reen → Step t s (record s { reen = s.reen - 1 })
  last : s.pc t ≡ inside → s.reen ≡ 1 → Step t s (record (at s t clears) { reen = 0 })
  clear : s.pc t ≡ clears → Step t s (record (at s t unlocks) { owner = none })
  unlock : s.pc t ≡ unlocks → Step t s (record (at s t idle) { locked = false })

abbrev pub start : State
start = record { locked = false; reen = 0; owner = none; pc = λ _. idle }

pub data Reach : State → Type 0 where
  begin : Reach start
  next : {s u : State} (t : ℕ) → Reach s → Step t s u → Reach u

pub record Inv (s : State) : Type 0 where
  pub one : (t u : ℕ) → holds (s.pc t) ≡ true → holds (s.pc u) ≡ true → t ≡ u
  pub shut : (t : ℕ) → holds (s.pc t) ≡ true → s.locked ≡ true
  pub owned : (t : ℕ) → owns (s.pc t) ≡ true → s.owner ≡ some t
  pub owner_in : (t : ℕ) → s.owner ≡ some t → owns (s.pc t) ≡ true
  pub deep : (t : ℕ) → counts (s.pc t) ≡ true → 0 < s.reen

counts→holds : (p : Pc) → counts p ≡ true → holds p ≡ true
counts→holds p h = ground arith

owns→holds : (p : Pc) → owns p ≡ true → holds p ≡ true
owns→holds p h = ground arith

module _ {s : State} (i : Inv s) (t : ℕ) where
  Step-one :
      {u : State} → Step t s u → (a b : ℕ) → holds (u.pc a) ≡ true → holds (u.pc b) ≡ true → a ≡ b
  Step-one (see_locked p q) a b = ground (arith, i.one a b)
  Step-one (see_free p q) a b = ground (arith, i.one a b)
  Step-one (own p q r) a b = ground (arith, i.one a b, i.one t a, i.one t b, i.owner_in t q)
  Step-one (other p q) a b = ground (arith, i.one a b)
  Step-one (wait_locked p q) a b = i.one a b
  Step-one (wait_free p q) a b = ground (arith, i.one a b)
  Step-one (lose p q) a b = i.one a b
  Step-one (win p q) a b = ground (arith, i.shut a, i.shut b)
  Step-one (set_reen p) a b = ground (arith, i.one a b, i.one t a, i.one t b)
  Step-one (set_owner p) a b = ground (arith, i.one a b, i.one t a, i.one t b)
  Step-one (relock p) a b = ground (arith, i.one a b, i.one t a, i.one t b)
  Step-one (deeper p q r) a b = ground (arith, i.one a b, i.one t a, i.one t b)
  Step-one (shallower p q) a b = i.one a b
  Step-one (last p q) a b = ground (arith, i.one a b, i.one t a, i.one t b)
  Step-one (clear p) a b = ground (arith, i.one a b, i.one t a, i.one t b)
  Step-one (unlock p) a b = ground (arith, i.one a b, i.one t a, i.one t b)

  Step-shut : {u : State} → Step t s u → (a : ℕ) → holds (u.pc a) ≡ true → u.locked ≡ true
  Step-shut (see_locked p q) a = ground (arith, i.shut a)
  Step-shut (see_free p q) a = ground (arith, i.shut a)
  Step-shut (own p q r) a = ground (arith, i.shut a, i.owner_in t q)
  Step-shut (other p q) a = ground (arith, i.shut a)
  Step-shut (wait_locked p q) a = i.shut a
  Step-shut (wait_free p q) a = ground (arith, i.shut a)
  Step-shut (lose p q) a = i.shut a
  Step-shut (win p q) a = ground arith
  Step-shut (set_reen p) a = ground (arith, i.shut a)
  Step-shut (set_owner p) a = ground (arith, i.shut a)
  Step-shut (relock p) a = ground (arith, i.shut a)
  Step-shut (deeper p q r) a = ground (arith, i.shut a)
  Step-shut (shallower p q) a = i.shut a
  Step-shut (last p q) a = ground (arith, i.shut a)
  Step-shut (clear p) a = ground (arith, i.shut a)
  Step-shut (unlock p) a = ground (arith, i.one a t)

  Step-owned : {u : State} → Step t s u → (a : ℕ) → owns (u.pc a) ≡ true → u.owner ≡ some a
  Step-owned (see_locked p q) a = ground (arith, i.owned a)
  Step-owned (see_free p q) a = ground (arith, i.owned a)
  Step-owned (own p q r) a = ground (arith, i.owned a)
  Step-owned (other p q) a = ground (arith, i.owned a)
  Step-owned (wait_locked p q) a = i.owned a
  Step-owned (wait_free p q) a = ground (arith, i.owned a)
  Step-owned (lose p q) a = i.owned a
  Step-owned (win p q) a = ground (arith, i.owned a)
  Step-owned (set_reen p) a = ground (arith, i.owned a)
  Step-owned (set_owner p) a = ground (arith, i.one t a, owns→holds (s.pc a))
  Step-owned (relock p) a = ground (arith, i.owned a)
  Step-owned (deeper p q r) a = ground (arith, i.owned a)
  Step-owned (shallower p q) a = i.owned a
  Step-owned (last p q) a = ground (arith, i.owned a)
  Step-owned (clear p) a = ground (arith, i.one t a, owns→holds (s.pc a))
  Step-owned (unlock p) a = ground (arith, i.owned a)

  Step-owner_in : {u : State} → Step t s u → (a : ℕ) → u.owner ≡ some a → owns (u.pc a) ≡ true
  Step-owner_in (see_locked p q) a = ground (arith, i.owner_in a)
  Step-owner_in (see_free p q) a = ground (arith, i.owner_in a)
  Step-owner_in (own p q r) a = ground (arith, i.owner_in a)
  Step-owner_in (other p q) a = ground (arith, i.owner_in a)
  Step-owner_in (wait_locked p q) a = i.owner_in a
  Step-owner_in (wait_free p q) a = ground (arith, i.owner_in a)
  Step-owner_in (lose p q) a = i.owner_in a
  Step-owner_in (win p q) a = ground (arith, i.owner_in a)
  Step-owner_in (set_reen p) a = ground (arith, i.owner_in a)
  Step-owner_in (set_owner p) a = ground arith
  Step-owner_in (relock p) a = ground (arith, i.owner_in a)
  Step-owner_in (deeper p q r) a = ground (arith, i.owner_in a)
  Step-owner_in (shallower p q) a = i.owner_in a
  Step-owner_in (last p q) a = ground (arith, i.owner_in a)
  Step-owner_in (clear p) a = ground arith
  Step-owner_in (unlock p) a = ground (arith, i.owner_in a)

  Step-deep : {u : State} → Step t s u → (a : ℕ) → counts (u.pc a) ≡ true → 0 < u.reen
  Step-deep (see_locked p q) a = ground (arith, i.deep a)
  Step-deep (see_free p q) a = ground (arith, i.deep a)
  Step-deep (own p q r) a = ground arith
  Step-deep (other p q) a = ground (arith, i.deep a)
  Step-deep (wait_locked p q) a = i.deep a
  Step-deep (wait_free p q) a = ground (arith, i.deep a)
  Step-deep (lose p q) a = i.deep a
  Step-deep (win p q) a = ground (arith, i.deep a)
  Step-deep (set_reen p) a = ground arith
  Step-deep (set_owner p) a = ground (arith, i.deep a, i.deep t)
  Step-deep (relock p) a = ground (arith, i.deep a)
  Step-deep (deeper p q r) a = ground arith
  Step-deep (shallower p q) a = omega arith
  Step-deep (last p q) a = ground (arith, i.one t a, counts→holds (s.pc a))
  Step-deep (clear p) a = ground (arith, i.deep a)
  Step-deep (unlock p) a = ground (arith, i.deep a)

Step-Inv : {s u : State} (t : ℕ) → Inv s → Step t s u → Inv u
Step-Inv t i st = record {
  one = Step-one i t st;
  shut = Step-shut i t st;
  owned = Step-owned i t st;
  owner_in = Step-owner_in i t st;
  deep = Step-deep i t st;
}

start-Inv : Inv start
start-Inv = record {
  one = λ t u h k. cc;
  shut = λ t h. cc;
  owned = λ t h. cc;
  owner_in = λ t h. cc;
  deep = λ t h. cc;
}

pub Reach-Inv : {s : State} → Reach s → Inv s
Reach-Inv begin = start-Inv
Reach-Inv (next t r st) = Step-Inv t (Reach-Inv r) st

-- In every interleaving, with nested calls below 2 ^ 32, at most one thread is between winning the
-- exchange and resetting `locked`.
pub Reach-exclusive :
    {s : State} → Reach s → (t u : ℕ) → holds (s.pc t) ≡ true → holds (s.pc u) ≡ true → t ≡ u
Reach-exclusive r = (Reach-Inv r).one

-- In every interleaving a thread that finds itself as the owner, though it reads `owner` with no
-- lock of its own, does hold the lock: the shortcut for nested calls is taken by the holder alone.
pub Reach-owner_read :
    {s : State}
    → Reach s
    → (t : ℕ) → s.owner ≡ some t
    → (holds (s.pc t) ≡ true) × (s.locked ≡ true) × (s.pc t ≢ owns?)
Reach-owner_read {s} r t e =
    let i = Reach-Inv r in ground (arith, i.owner_in t, i.shut t, owns→holds (s.pc t))
