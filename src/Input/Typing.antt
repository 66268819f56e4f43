-- ===== src/Input/Typing.antt =====
-- What the keys going down and up do to the keyboard of input.c.
use os_workbench.Base.{
  ℕ, zero, suc, ◌+◌, ◌-◌, ◌≡◌, refl, Bool, true, false, not, ◌&&◌, ◌||◌, List, [], ◌∷◌, ◌==◌, ltb,
  if◌then◌else◌, get_or, ap, ==→eq,
}
use os_workbench.Input.Keymap.{
  keymap, keymap_shift, key_capslock, key_lshift, key_rshift, key_lctrl, key_rctrl, key_lalt,
  key_ralt,
}
use os_workbench.Input.{Event, Mods, ◌^^◌, lower, key_down}

-- Whether a key is held after a code: down when the code says that it goes down, up when it goes up.
abbrev pub holds : (key code : ℕ) → Bool → Bool
holds key code b = if code == key + key_down then true else if code == key then false else b

abbrev pub track : ℕ → Mods → Mods
track code m = record {
  capslock = if code == key_capslock + key_down then not m.capslock else m.capslock;
  shift_left = holds key_lshift code m.shift_left;
  shift_right = holds key_rshift code m.shift_right;
  ctrl_left = holds key_lctrl code m.ctrl_left;
  ctrl_right = holds key_rctrl code m.ctrl_right;
  alt_left = holds key_lalt code m.alt_left;
  alt_right = holds key_ralt code m.alt_right;
}

-- The character of a key without Ctrl and Alt: a letter is a capital when just one of Shift and the lock
-- is on, and any other key is shifted by Shift alone.
abbrev pub character : (key : ℕ) → Mods → ℕ
character key m =
    let ch = get_or keymap key 0 in
    let shift = m.shift_left || m.shift_right in
    if lower ch
    then (if shift ^^ m.capslock then ch - 32 else ch)
    else if shift
    then get_or keymap_shift key 0
    else ch

abbrev pub stroke : (key : ℕ) → Mods → Event
stroke key m =
    let ctrl = m.ctrl_left || m.ctrl_right in
    let alt = m.alt_left || m.alt_right in
    if ctrl || alt
    then record { ctrl = ctrl; alt = alt; ch = get_or keymap key 0 }
    else record { ctrl = false; alt = false; ch = character key m }

-- A key that has a character gives one event when it goes down.
abbrev pub strokes : (code : ℕ) → Mods → List Event
strokes code m =
    let key = code - key_down in
    if ltb code key_down || (get_or keymap key 0 == 0) then [] else stroke key m ∷ []

-- The two tables have the same letters, in the two cases.
abbrev cases_ok : List ℕ → List ℕ → Bool
cases_ok [] r = true
cases_ok (x ∷ l) [] = not (lower x) && cases_ok l []
cases_ok (x ∷ l) (y ∷ r) = (not (lower x) || (y == x - 32)) && cases_ok l r

and-left : (a b : Bool) → (a && b) ≡ true → a ≡ true
and-left true b h = refl
and-left false b h = h

and-right : (a b : Bool) → (a && b) ≡ true → b ≡ true
and-right true b h = h
and-right false b h = (cc)

cases-get_or :
    (l r : List ℕ) (i : ℕ)
    → cases_ok l r ≡ true
    → lower (get_or l i 0) ≡ true
    → get_or r i 0 ≡ get_or l i 0 - 32
cases-get_or [] r i c h = (cc)
cases-get_or (x ∷ l) [] zero c h =
    let e = and-left (not (lower x)) (cases_ok l []) c in
    let f : not (lower x) ≡ false = ap not h in (cc)
cases-get_or (x ∷ l) [] (suc i) c h =
    cases-get_or l [] i (and-right (not (lower x)) (cases_ok l []) c) h
cases-get_or (x ∷ l) (y ∷ r) zero c h =
    let e = and-left (not (lower x) || (y == x - 32)) (cases_ok l r) c in
    ==→eq y (x - 32) (rw h at e)
cases-get_or (x ∷ l) (y ∷ r) (suc i) c h =
    cases-get_or l r i (and-right (not (lower x) || (y == x - 32)) (cases_ok l r) c) h

pub upper_keymap :
    (key : ℕ)
    → lower (get_or keymap key 0) ≡ true
    → get_or keymap_shift key 0 ≡ get_or keymap key 0 - 32
upper_keymap key h = cases-get_or keymap keymap_shift key refl h
