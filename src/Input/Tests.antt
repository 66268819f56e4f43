-- ===== src/Input/Tests.antt =====
-- Runs of the keyboard.
use os_workbench.Base.{ℕ, ◌+◌, ◌≡◌, refl, true, false, some, List, [], ◌∷◌, ◌++◌, arith}
use os_workbench.Input.{Event, Input, input_init, input_task, key_down}
use os_workbench.Input.Keymap.{key_lshift}
use os_workbench.Input.Ring.{pending, IsValid}
use os_workbench.Input.Typing.{track, strokes}
use os_workbench.Input.Keys.{tracked, struck, input_task-struck}

abbrev nothing : Event
nothing = record { ctrl = false; alt = false; ch = 0 }

abbrev boot : Input
boot = input_init (λ i. nothing)

boot-IsValid : IsValid boot
boot-IsValid = record { front_in = omega arith; rear_in = omega arith; counted = refl }

-- Shift goes down, A, Shift goes up, A.
abbrev codes : List ℕ
codes = (key_lshift + key_down) ∷ (43 + key_down) ∷ 43 ∷ key_lshift ∷ (43 + key_down) ∷ []

input_task-struck_example :
    (k : Input) × (input_task codes boot ≡ some k)
    × IsValid k
    × (k.mods ≡ tracked codes boot.mods)
    × (pending k ≡ pending boot ++ struck codes boot.mods)
input_task-struck_example = input_task-struck codes boot (omega arith) boot-IsValid (omega arith)

two_letters :
    struck codes boot.mods
    ≡ record { ctrl = false; alt = false; ch = b'A' }
      ∷ record { ctrl = false; alt = false; ch = b'a' }
      ∷ []
unfolding struck
two_letters = refl

-- Shift and Return give the byte 0.
shift_return : strokes (54 + key_down) (track (key_lshift + key_down) boot.mods) ≡ nothing ∷ []
shift_return = refl

abbrev one_event : Input
one_event = record boot {
  events = λ i. record { ctrl = false; alt = true; ch = b'2' };
  rear = 1;
  event_sem = 1;
}

one_event-IsValid : IsValid one_event
one_event-IsValid = record { front_in = omega arith; rear_in = omega arith; counted = refl }
