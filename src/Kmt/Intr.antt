-- ===== src/Kmt/Intr.antt =====
-- `_intr_close` and `_intr_open` of abstract-machine/libs/klib/src/intr.c: interrupts are switched off
-- by the outermost close, and on again by the open that matches it.
use Prim.Native.Nat.{max}
use os_workbench.Base.{
  ltb, ◌%◌, ◌^◌, ◌<◌, ◌≤◌, suc, ℕ, ◌+◌, ◌-◌, ◌≡◌, refl, Bool, false, ◌||◌, Option, none, some,
  arith, ◌==◌, if◌then◌else◌,
}

-- One CPU: the flag IF, and its entries of `ncli` and `intena`. `ncli` is an `int`, kept as 32 bits: a
-- pattern from 2 ^ 31 on is negative.
pub record Cpu : Type 0 where
  pub if_on : Bool
  pub ncli : ℕ
  pub intena : Bool

-- `none` is the failed `Assert`: the counter is negative.
unfoldable pub intr_close : Cpu → Option Cpu
intr_close c =
    if ltb c.ncli (2 ^ 31)
    then some (record { if_on = false; ncli = (c.ncli + 1) % 2 ^ 32; intena = c.intena || c.if_on })
    else none

-- `none` is the failed `Assert`: the counter has become negative.
unfoldable pub intr_open : Cpu → Option Cpu
intr_open c =
    let n = (c.ncli + (2 ^ 32 - 1)) % 2 ^ 32 in
    let d : Cpu =
      if n == 0
      then record { if_on = c.intena || c.if_on; ncli = n; intena = false }
      else record c { ncli = n } in
    if ltb n (2 ^ 31) then some d else none

-- Between two calls: inside a closed region interrupts are off, outside none is owed.
pub record IsValid (c : Cpu) : Type 0 where
  pub inside : c.ncli ≡ 0 → c.intena ≡ false
  pub outside : (c.ncli == 0) ≡ false → c.if_on ≡ false

-- Code whose closes and opens match: one after the other, or a closed region round more code.
pub data Nest : Type 0 where
  done : Nest
  region : Nest → Nest → Nest

-- How many regions stand inside each other.
abbrev pub depth : Nest → ℕ
depth done = 0
depth (region inner rest) = max (suc (depth inner)) (depth rest)

abbrev pub and_then : Option Cpu → (Cpu → Option Cpu) → Option Cpu
and_then none k = none
and_then (some c) k = k c

unfoldable pub run : Nest → Cpu → Option Cpu
run done c = some c
run (region inner rest) c =
    and_then (and_then (and_then (intr_close c) (run inner)) intr_open) (run rest)

-- The CPU after a close that is in range.
abbrev pub closed : Cpu → Cpu
closed c = record { if_on = false; ncli = c.ncli + 1; intena = c.intena || c.if_on }

pub intr_close-closed : (c : Cpu) → c.ncli < 2 ^ 31 → intr_close c ≡ some (closed c)
unfolding intr_close
intr_close-closed c h = ground arith

pub closed-IsValid : {c : Cpu} → IsValid c → IsValid (closed c)
closed-IsValid v = ground arith

pub intr_open-closed : (c : Cpu) → IsValid c → c.ncli < 2 ^ 31 → intr_open (closed c) ≡ some c
unfolding intr_open
intr_open-closed c v h = ground arith

-- From a CPU whose interrupt switch is in order, matched calls leave the switch exactly as it was,
-- and no `Assert` fails, if the closes that are open at once stay in the range of the `int`.
pub run-Nest : (w : Nest) (c : Cpu) → IsValid c → c.ncli + depth w ≤ 2 ^ 31 → run w c ≡ some c
unfolding run
run-Nest done c v h = refl
run-Nest (region inner rest) c v h =
    rw (intr_close-closed c (omega (arith, h)), run)
      (rw (run-Nest inner (closed c) (closed-IsValid v) (omega (arith, h)), run)
        (rw (intr_open-closed c v (omega (arith, h)), run) (run-Nest rest c v (omega (arith, h)))))
