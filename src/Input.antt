-- ===== src/Input.antt =====
-- The keyboard, kernel/src/devices/input/input.c, with the tables of keymaps.c, the codes of
-- abstract-machine/am/amdev.h and `input_t` of kernel/include/devices.h. A call that holds the lock is
-- one step; `none` is a panic.
pub mod Keymap
pub mod Ring
pub mod Typing
pub mod Strokes
pub mod Keydown
pub mod Keys
mod Tests
use os_workbench.Base.{
  ℕ, zero, suc, ◌+◌, ◌-◌, ◌*◌, ◌/◌, ◌%◌, Bool, true, false, not, ◌&&◌, ◌||◌, Option, none, some,
  List, [], ◌∷◌, ◌++◌, ◌==◌, ltb, leb, if◌then◌else◌, get_or, update,
}
use os_workbench.Input.Keymap.{
  keymap, keymap_shift, key_capslock, key_lshift, key_rshift, key_lctrl, key_rctrl, key_lalt,
  key_ralt,
}

abbrev pub nevents : ℕ
nevents = 128

-- `struct input_event`, its field `data` as `ch`; four bytes.
pub record Event : Type 0 where
  pub ctrl : Bool
  pub alt : Bool
  pub ch : ℕ

-- The keys held, left and right, and the lock.
pub record Mods : Type 0 where
  pub capslock : Bool
  pub shift_left : Bool
  pub shift_right : Bool
  pub ctrl_left : Bool
  pub ctrl_right : Bool
  pub alt_left : Bool
  pub alt_right : Bool

-- `event_sem` is the value of the semaphore.
pub record Input : Type 0 where
  pub mods : Mods
  pub events : ℕ → Event
  pub front : ℕ
  pub rear : ℕ
  pub event_sem : ℕ

unfoldable pub push_event : Event → Input → Option Input
push_event ev k =
    let rear = (k.rear + 1) % nevents in
    if rear == k.front
    then none
    else some
        (record k { events = update k.events k.rear ev; rear = rear; event_sem = k.event_sem + 1 })

infix 50 ◌^^◌
abbrev pub ◌^^◌ : Bool → Bool → Bool
a ^^ true = not a
a ^^ false = a

abbrev pub lower : ℕ → Bool
lower ch = leb b'a' ch && leb ch b'z'

-- The default case of a key that goes down. `none` is also a read behind the 256 entries of the tables.
unfoldable pub typed : ℕ → Input → Option Input
typed key k =
    let m = k.mods in
    let ch = get_or keymap key 0 in
    let shift = m.shift_left || m.shift_right in
    let ctrl = m.ctrl_left || m.ctrl_right in
    let alt = m.alt_left || m.alt_right in
    let turned = if lower ch then shift ^^ m.capslock else shift in
    if leb 256 key
    then none
    else if ch == 0
    then some k
    else if ctrl || alt
    then push_event (record { ctrl = ctrl; alt = alt; ch = ch }) k
    else if turned
    then push_event (record { ctrl = false; alt = false; ch = get_or keymap_shift key 0 }) k
    else push_event (record { ctrl = false; alt = false; ch = ch }) k

-- The switch on a key that goes down.
unfoldable pub pressed : ℕ → Input → Option Input
pressed key k =
    let m = k.mods in
    if key == key_capslock
    then some (record k { mods = record m { capslock = not m.capslock } })
    else if key == key_lctrl
    then some (record k { mods = record m { ctrl_left = true } })
    else if key == key_rctrl
    then some (record k { mods = record m { ctrl_right = true } })
    else if key == key_lalt
    then some (record k { mods = record m { alt_left = true } })
    else if key == key_ralt
    then some (record k { mods = record m { alt_right = true } })
    else if key == key_lshift
    then some (record k { mods = record m { shift_left = true } })
    else if key == key_rshift
    then some (record k { mods = record m { shift_right = true } })
    else typed key k

-- The switch on a key that goes up.
unfoldable pub released : ℕ → Input → Input
released code k =
    let m = k.mods in
    if code == key_lctrl
    then record k { mods = record m { ctrl_left = false } }
    else if code == key_rctrl
    then record k { mods = record m { ctrl_right = false } }
    else if code == key_lalt
    then record k { mods = record m { alt_left = false } }
    else if code == key_ralt
    then record k { mods = record m { alt_right = false } }
    else if code == key_lshift
    then record k { mods = record m { shift_left = false } }
    else if code == key_rshift
    then record k { mods = record m { shift_right = false } }
    else k

-- Bit 15 of a code tells a key that goes down.
abbrev pub key_down : ℕ
key_down = 0x8000

unfoldable pub input_keydown : ℕ → Input → Option Input
input_keydown code k =
    if (code / key_down) % 2 == 1 then pressed (code - key_down) k else some (released code k)

-- The loop of `input_task` over the codes that are there.
unfoldable pub input_task : List ℕ → Input → Option Input
input_task [] k = some k
input_task (code ∷ s) k = elim (input_keydown code k) [ none ↦ none | some k' ↦ input_task s k' ]

-- An event, or what else a read comes to.
pub data Read : Type 0 where
  got : (ret : ℕ) → (copied : Option Event) → Input → Read
  waits : Read
  queue_empty : Read

unfoldable pub pop_event : Input → (Event → Input → Read) → Read
pop_event k next =
    if k.event_sem == 0
    then waits
    else if k.rear == k.front
    then queue_empty
    else next (k.events k.front)
        (record k { front = (k.front + 1) % nevents; event_sem = k.event_sem - 1 })

unfoldable pub input_read : (count : ℕ) → Input → Read
input_read count k =
    pop_event k (λ ev k'. if leb 4 count then got 4 (some ev) k' else got 0 none k')

-- `input_init`; the input device is allocated cleared.
abbrev pub input_init : (ℕ → Event) → Input
input_init events = record {
  mods = record {
    capslock = false;
    shift_left = false;
    shift_right = false;
    ctrl_left = false;
    ctrl_right = false;
    alt_left = false;
    alt_right = false;
  };
  events = events;
  front = 0;
  rear = 0;
  event_sem = 0;
}
