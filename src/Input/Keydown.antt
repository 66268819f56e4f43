-- ===== src/Input/Keydown.antt =====
-- Each code does to the keyboard of input.c what it should.
use os_workbench.Base.{
  ℕ, ◌+◌, ◌-◌, ◌/◌, ◌%◌, ◌<◌, ◌≡◌, refl, Bool, true, false, ◌||◌, some, [], ◌∷◌, ◌++◌, arith, ◌==◌,
  ltb, leb, if◌then◌else◌, get_or, length, ap, ◌∙◌, sym, Bool-cases, inl, inr, ==→eq, ==→ne, ltb→lt,
  ltb→le,
}
use mathlib.Core.Path.{subst}
use mathlib.Core.List.{append-nil}
use os_workbench.Input.Keymap.{
  keymap, key_capslock, key_lshift, key_rshift, key_lctrl, key_rctrl, key_lalt, key_ralt,
}
use os_workbench.Input.{Mods, Input, typed, pressed, key_down, input_keydown}
use os_workbench.Input.Ring.{pending, IsValid, push_event-pending}
use os_workbench.Input.Typing.{track, stroke}
use os_workbench.Input.Strokes.{track_other, released-track, Steps, typed-stroke}

or_true : (b : Bool) → (b || true) ≡ true
or_true true = refl
or_true false = refl

module _ (key : ℕ) (k : Input) (v : IsValid k) (room : length (pending k) < 127)
    (h : key < 256) where
  -- A key that only changes the modifiers.
  modifier :
      (m : Mods)
      → get_or keymap key 0 ≡ 0
      → track (key + key_down) k.mods ≡ m
      → pressed key k ≡ some (record k { mods = m })
      → Steps (key + key_down) k (pressed key k)
  modifier m e t q =
      let there : key + key_down - key_down ≡ key = omega arith in
      let none_there : (get_or keymap (key + key_down - key_down) 0 == 0) ≡ true =
        ap (λ n. get_or keymap n 0 == 0) there ∙ ap (λ n. n == 0) e in
      let quiet : (ltb (key + key_down) key_down
            || (get_or keymap (key + key_down - key_down) 0 == 0))
          ≡ true =
        ap (λ b. ltb (key + key_down) key_down || b) none_there
        ∙ or_true (ltb (key + key_down) key_down) in
      (
        record k { mods = m },
        q,
        record { front_in = v.front_in; rear_in = v.rear_in; counted = v.counted },
        sym t,
        sym (append-nil (pending k))
            ∙ ap
                (λ b.
                  pending k ++ (if b then [] else stroke (key + key_down - key_down) k.mods ∷ []))
                (sym quiet),
      )

  named :
      (n : ℕ)
      → key ≡ n
      → Steps (n + key_down) k (pressed n k)
      → Steps (key + key_down) k (pressed key k)
  named n e = subst (λ c. Steps (c + key_down) k (pressed c k)) (sym e)

  -- A key that only types.
  typing :
      track (key + key_down) k.mods ≡ k.mods
      → pressed key k ≡ typed key k
      → Steps (key + key_down) k (pressed key k)
  unfolding typed
  typing t q = elim (Bool-cases (get_or keymap key 0 == 0)) [
    | inl e ↦
        let inside : leb 256 key ≡ false = ground (arith, h) in
        let z : typed key k ≡ some k = rw (inside, e) refl in
        modifier k.mods (==→eq (get_or keymap key 0) 0 e) t (q ∙ z)
    | inr e ↦
        let r = push_event-pending (stroke key k.mods) k v room in
        let there : key + key_down - key_down ≡ key = omega arith in
        let down : ltb (key + key_down) key_down ≡ false = ground arith in
        let loud : (get_or keymap (key + key_down - key_down) 0 == 0) ≡ false =
          ap (λ n. get_or keymap n 0 == 0) there ∙ e in
        (
          r.0,
          q ∙ typed-stroke key k h v room (==→ne (get_or keymap key 0) 0 e) ∙ r.1,
          r.2,
          r.3 ∙ sym t,
          r.4 ∙ ap (λ n. pending k ++ (stroke n k.mods ∷ [])) (sym there) ∙ (λ i.
              pending k
              ++ (if sym down i || sym loud i
                  then []
                  else stroke (key + key_down - key_down) k.mods ∷ [])),
        )
  ]

module _ (key : ℕ) (k : Input) (v : IsValid k) (room : length (pending k) < 127)
    (h : key < 256) where
  pressed-Steps : Steps (key + key_down) k (pressed key k)
  unfolding pressed
  pressed-Steps = elim (Bool-cases (key == key_capslock)) [
    | inl e ↦ named key k v room h key_capslock (==→eq key key_capslock e) (
        modifier key_capslock k v room (omega arith) (track (key_capslock + key_down) k.mods) refl
          refl refl)
    | inr e0 ↦ elim (Bool-cases (key == key_lctrl)) [
      | inl e ↦ named key k v room h key_lctrl (==→eq key key_lctrl e) (
          modifier key_lctrl k v room (omega arith) (track (key_lctrl + key_down) k.mods) refl refl
            refl)
      | inr e1 ↦ elim (Bool-cases (key == key_rctrl)) [
        | inl e ↦ named key k v room h key_rctrl (==→eq key key_rctrl e) (
            modifier key_rctrl k v room (omega arith) (track (key_rctrl + key_down) k.mods) refl
              refl refl)
        | inr e2 ↦ elim (Bool-cases (key == key_lalt)) [
          | inl e ↦ named key k v room h key_lalt (==→eq key key_lalt e) (
              modifier key_lalt k v room (omega arith) (track (key_lalt + key_down) k.mods) refl
                refl refl)
          | inr e3 ↦ elim (Bool-cases (key == key_ralt)) [
            | inl e ↦ named key k v room h key_ralt (==→eq key key_ralt e) (
                modifier key_ralt k v room (omega arith) (track (key_ralt + key_down) k.mods) refl
                  refl refl)
            | inr e4 ↦ elim (Bool-cases (key == key_lshift)) [
              | inl e ↦ named key k v room h key_lshift (==→eq key key_lshift e) (
                  modifier key_lshift k v room (omega arith) (track (key_lshift + key_down) k.mods)
                    refl refl refl)
              | inr e5 ↦ elim (Bool-cases (key == key_rshift)) [
                | inl e ↦ named key k v room h key_rshift (==→eq key key_rshift e) (
                    modifier key_rshift k v room (omega arith)
                      (track (key_rshift + key_down) k.mods) refl refl refl)
                | inr e6 ↦
                    let b0 = ==→ne key key_capslock e0 in
                    let b1 = ==→ne key key_lctrl e1 in
                    let b2 = ==→ne key key_rctrl e2 in
                    let b3 = ==→ne key key_lalt e3 in
                    let b4 = ==→ne key key_ralt e4 in
                    let b5 = ==→ne key key_lshift e5 in
                    let b6 = ==→ne key key_rshift e6 in
                    typing key k v room h
                      (track_other (key + key_down) k.mods (λ q. b0 (omega (arith, q)))
                        (omega arith) (λ q. b5 (omega (arith, q))) (omega arith)
                        (λ q. b6 (omega (arith, q))) (omega arith) (λ q. b1 (omega (arith, q)))
                        (omega arith) (λ q. b2 (omega (arith, q))) (omega arith)
                        (λ q. b3 (omega (arith, q))) (omega arith) (λ q. b4 (omega (arith, q))))
                      (rw (e0, e1, e2, e3, e4, e5, e6) refl)
              ]
            ]
          ]
        ]
      ]
    ]
  ]

pub keydown-Steps :
    (code : ℕ) (k : Input)
    → code < key_down + 256
    → IsValid k
    → length (pending k) < 127
    → Steps code k (input_keydown code k)
unfolding input_keydown
keydown-Steps code k c v room = elim (Bool-cases (ltb code key_down)) [
  | inl e ↦
      let lt = ltb→lt code key_down e in
      let up : ((code / key_down) % 2 == 1) ≡ false = ground (arith, lt) in
      let quiet : (if ltb code key_down || (get_or keymap (code - key_down) 0 == 0)
            then []
            else stroke (code - key_down) k.mods ∷ [])
          ≡ [] =
        rw e refl in
      rw up (
        record k { mods = track code k.mods },
        ap some (released-track code k lt),
        record { front_in = v.front_in; rear_in = v.rear_in; counted = v.counted },
        refl,
        sym (append-nil (pending k)) ∙ ap (λ l. pending k ++ l) (sym quiet),
      )
  | inr e ↦
      let le = ltb→le code key_down e in
      let down : ((code / key_down) % 2 == 1) ≡ true = ground (arith, le, c) in
      let whole : code - key_down + key_down ≡ code = omega (arith, le) in
      rw down (
        subst (λ n. Steps n k (pressed (code - key_down) k)) whole
          (pressed-Steps (code - key_down) k v room (omega (arith, c))))
]
