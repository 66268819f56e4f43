-- ===== src/Os/Tests.antt =====
-- Handlers registered and a trap, as kernel/src/os.c runs them.
use os_workbench.Base.{ℕ, ◌+◌, ◌≡◌, refl, arith, none, some, [], ◌∷◌}
use os_workbench.Base.Int.{pos}
use os_workbench.Os.{Irq, call, int_max, int_min, event_null, on_irq, dispatch, trap}
use os_workbench.Os.Order.{Placed, on_irq-Placed}
use os_workbench.Os.Trap.{around, trap-around}

-- The state is the last context that was saved. The switch returns it plus 1.
abbrev save : Irq ℕ ℕ
save = record { seq = int_min; event = event_null; handler = λ ev c s. (none, c) }

abbrev device : Irq ℕ ℕ
device = record { seq = pos 0; event = 3; handler = λ ev c s. (none, s + 10) }

abbrev switch : Irq ℕ ℕ
switch = record { seq = int_max; event = event_null; handler = λ ev c s. (some (s + 1), s) }

abbrev clean : Irq ℕ ℕ
clean = record { seq = int_max; event = event_null; handler = λ ev c s. (none, s) }

on_irq-Placed_example :
    Placed device (save ∷ switch ∷ clean ∷ []) (on_irq device (save ∷ switch ∷ clean ∷ []))
on_irq-Placed_example =
    on_irq-Placed device (save ∷ switch ∷ clean ∷ [])
      ((omega arith, (omega arith, tt)), ((omega arith, tt), (tt, tt)))

-- The device and the saving leave 50, so the switch returns 51.
trap-around_example :
    let s1 = (dispatch 3 40 (save ∷ device ∷ []) 40 0).1 in
    let s2 = (switch.handler 3 40 s1).1 in
    trap 3 40 (around save (device ∷ []) switch clean) 0 ≡ (51, (clean.handler 3 40 s2).1)
unfolding dispatch call
trap-around_example = trap-around 3 40 51 save switch clean (device ∷ []) 0 refl refl (refl, refl)
