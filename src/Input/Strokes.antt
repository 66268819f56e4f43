-- ===== src/Input/Strokes.antt =====
-- Keys that go up, and the keys of input.c that give an event.
use os_workbench.Base.{
  ℕ, ◌+◌, ◌<◌, ◌≡◌, refl, ◌≢◌, Bool, false, not, ◌||◌, Option, some, ◌++◌, arith, ◌==◌,
  if◌then◌else◌, get_or, leb, length, ap, ◌∙◌, sym, Bool-cases, inl, inr, ==→eq, ==→ne,
}
use mathlib.Core.Path.{subst}
use os_workbench.Input.Keymap.{
  keymap, key_capslock, key_lshift, key_rshift, key_lctrl, key_rctrl, key_lalt, key_ralt,
}
use os_workbench.Input.{Mods, Input, push_event, ◌^^◌, lower, typed, released, key_down}
use os_workbench.Input.Ring.{pending, IsValid}
use os_workbench.Input.Typing.{holds, track, stroke, strokes, upper_keymap}

holds_other : (key code : ℕ) (b : Bool) → code ≢ key → code ≢ key + key_down → holds key code b ≡ b
holds_other key code b h k = ground (arith, h, k)

-- A code of no key that the switches name changes no modifier.
pub track_other :
    (code : ℕ) (m : Mods)
    → code ≢ key_capslock + key_down
    → code ≢ key_lshift
    → code ≢ key_lshift + key_down
    → code ≢ key_rshift
    → code ≢ key_rshift + key_down
    → code ≢ key_lctrl
    → code ≢ key_lctrl + key_down
    → code ≢ key_rctrl
    → code ≢ key_rctrl + key_down
    → code ≢ key_lalt
    → code ≢ key_lalt + key_down
    → code ≢ key_ralt
    → code ≢ key_ralt + key_down
    → track code m ≡ m
track_other code m c a0 a1 b0 b1 d0 d1 e0 e1 f0 f1 g0 g1 =
    let e : (code == key_capslock + key_down) ≡ false = ground (arith, c) in
    λ i. record {
      capslock = if e i then not m.capslock else m.capslock;
      shift_left = holds_other key_lshift code m.shift_left a0 a1 i;
      shift_right = holds_other key_rshift code m.shift_right b0 b1 i;
      ctrl_left = holds_other key_lctrl code m.ctrl_left d0 d1 i;
      ctrl_right = holds_other key_rctrl code m.ctrl_right e0 e1 i;
      alt_left = holds_other key_lalt code m.alt_left f0 f1 i;
      alt_right = holds_other key_ralt code m.alt_right g0 g1 i;
    }

pub released-track :
    (code : ℕ) (k : Input)
    → code < key_down
    → released code k ≡ record k { mods = track code k.mods }
unfolding released
released-track code k h = elim (Bool-cases (code == key_lctrl)) [
  | inl e ↦ named key_lctrl (==→eq code key_lctrl e) refl
  | inr e0 ↦ elim (Bool-cases (code == key_rctrl)) [
    | inl e ↦ named key_rctrl (==→eq code key_rctrl e) refl
    | inr e1 ↦ elim (Bool-cases (code == key_lalt)) [
      | inl e ↦ named key_lalt (==→eq code key_lalt e) refl
      | inr e2 ↦ elim (Bool-cases (code == key_ralt)) [
        | inl e ↦ named key_ralt (==→eq code key_ralt e) refl
        | inr e3 ↦ elim (Bool-cases (code == key_lshift)) [
          | inl e ↦ named key_lshift (==→eq code key_lshift e) refl
          | inr e4 ↦ elim (Bool-cases (code == key_rshift)) [
            | inl e ↦ named key_rshift (==→eq code key_rshift e) refl
            | inr e5 ↦
                let other : released code k ≡ k = rw (e0, e1, e2, e3, e4, e5) refl in
                other
                ∙ (ap (λ m. record k { mods = m })
                    (sym (
                      track_other code k.mods (omega (arith, h)) (==→ne code key_lshift e4)
                        (omega (arith, h)) (==→ne code key_rshift e5) (omega (arith, h))
                        (==→ne code key_lctrl e0) (omega (arith, h)) (==→ne code key_rctrl e1)
                        (omega (arith, h)) (==→ne code key_lalt e2) (omega (arith, h))
                        (==→ne code key_ralt e3) (omega (arith, h)))))
          ]
        ]
      ]
    ]
  ]
]
  where
    named :
        (n : ℕ)
        → code ≡ n
        → released n k ≡ record k { mods = track n k.mods }
        → released code k ≡ record k { mods = track code k.mods }
    named n e = subst (λ c. released c k ≡ record k { mods = track c k.mods }) (sym e)

-- What a code comes to: no panic, a valid queue with the strokes of the code behind, and the modifiers.
abbrev pub Steps : ℕ → Input → Option Input → Type 0
Steps code k o =
    (k' : Input) × (o ≡ some k')
    × IsValid k'
    × (k'.mods ≡ track code k.mods)
    × (pending k' ≡ pending k ++ strokes code k.mods)

pub typed-stroke :
    (key : ℕ) (k : Input)
    → key < 256
    → IsValid k
    → length (pending k) < 127
    → get_or keymap key 0 ≢ 0
    → typed key k ≡ push_event (stroke key k.mods) k
unfolding typed
typed-stroke key k b v h n =
    let m = k.mods in
    let ch = get_or keymap key 0 in
    let shift = m.shift_left || m.shift_right in
    let ctrl = m.ctrl_left || m.ctrl_right in
    let alt = m.alt_left || m.alt_right in
    let inside : leb 256 key ≡ false = ground (arith, b) in
    let e : (ch == 0) ≡ false = ground (arith, n) in
    elim (Bool-cases (ctrl || alt)) [
      | inl a ↦ rw (inside, e, a) refl
      | inr a ↦ elim (Bool-cases (lower ch)) [
        | inl d ↦ elim (Bool-cases (shift ^^ m.capslock)) [
          | inl c ↦
              rw (inside, e, a, d, c)
                (ap (λ x. push_event (record { ctrl = false; alt = false; ch = x }) k)
                  (upper_keymap key d))
          | inr c ↦ rw (inside, e, a, d, c) refl
        ]
        | inr d ↦ elim (Bool-cases shift) [
          | inl c ↦ rw (inside, e, a, d, c) refl
          | inr c ↦ rw (inside, e, a, d, c) refl
        ]
      ]
    ]
