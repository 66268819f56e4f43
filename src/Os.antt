-- ===== src/Os.antt =====
-- The interrupt handlers of kernel/src/os.c: `os_on_irq` and `os_trap`. The circular list behind
-- `irq_guard` is a list, and the end of the list is the guard; what the handlers read and change
-- besides the context is the state `S`.
pub mod Order
pub mod Trap
mod Tests
use os_workbench.Base.{
  ℕ, Bool, true, false, ◌||◌, Option, none, some, List, [], ◌∷◌, ◌==◌, if◌then◌else◌,
}
use os_workbench.Base.Int.{ℤ, pos, negsuc, ltb_ℤ}

abbrev pub int_max : ℤ
int_max = pos 0x7fff_ffff

abbrev pub int_min : ℤ
int_min = negsuc 0x7fff_ffff

-- `_EVENT_NULL` of abstract-machine/am/am.h
abbrev pub event_null : ℕ
event_null = 0

-- A handler gets the event and the interrupted context, and returns a context or NULL.
pub record Irq (C S : Type 0) : Type 0 where
  pub seq : ℤ
  pub event : ℕ
  pub handler : ℕ → C → S → Option C × S

-- `if (next) ret = next;`
abbrev pub or_else : {C : Type 0} → Option C → C → C
or_else none ret = ret
or_else (some next) ret = next

module _ {C S : Type 0} where
  unfoldable pub on_irq : Irq C S → List (Irq C S) → List (Irq C S)
  on_irq h [] = h ∷ []
  on_irq h (p ∷ ps) = if ltb_ℤ h.seq p.seq then h ∷ p ∷ ps else p ∷ on_irq h ps

  -- One round of the loop of `os_trap`, with the context to return so far.
  unfoldable pub call : ℕ → C → Irq C S → C → S → C × S
  call ev context p ret s =
      if p.event == event_null || p.event == ev
      then (let (next, s') = p.handler ev context s in (or_else next ret, s'))
      else (ret, s)

  unfoldable pub dispatch : ℕ → C → List (Irq C S) → C → S → C × S
  dispatch ev context [] ret s = (ret, s)
  dispatch ev context (p ∷ ps) ret s =
      let (ret', s') = call ev context p ret s in dispatch ev context ps ret' s'

  unfoldable pub trap : ℕ → C → List (Irq C S) → S → C × S
  trap ev context handlers s = dispatch ev context handlers context s
