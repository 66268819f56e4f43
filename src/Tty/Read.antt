-- ===== src/Tty/Read.antt =====
-- What a read of tty.c takes from the typed bytes, each line of which ends with a 0.
use os_workbench.Base.{
  ℕ, zero, suc, ◌+◌, ◌-◌, ◌≤◌, ◌<◌, ◌≡◌, refl, ◌≢◌, Bool, true, false, ◌&&◌, Option, some, List, [],
  ◌∷◌, ◌++◌, arith, ◌==◌, ltb, if◌then◌else◌, get_or, take, length, ap, ◌∙◌, sym, Bool-cases, inl,
  inr, ==→eq, ltb→lt, ltb→le,
}
use mathlib.Core.List.{append_assoc, append-nil}
use os_workbench.Base.Window.{succ, place, gap, window, place-succ}
use os_workbench.Tty.Cook.{Lines, read_loop, got, tty_read}
use os_workbench.Tty.Line.{pending, before}
use os_workbench.Tty.Typed.{ended, Cooked}

-- The first line, without its 0, and the bytes after it.
abbrev pub line : List ℕ → List ℕ
line [] = []
line (x ∷ l) = if x == 0 then [] else x ∷ line l

abbrev pub later : List ℕ → List ℕ
later [] = []
later (x ∷ l) = if x == 0 then l else later l

ended-later : (l : List ℕ) → ended (later l) ≡ ended l - 1
ended-later [] = refl
ended-later (x ∷ l) = elim (Bool-cases (x == 0)) [
  | inl e ↦ rw e (omega arith)
  | inr e ↦ rw e (ended-later l)
]

-- What the loop of a read leaves.
abbrev After :
    List ℕ → (n front : ℕ) → (count nread : ℕ) → List ℕ → Option (ℕ × ℕ × List ℕ) → Type 0
After buf n front count nread out o =
    let w = window buf 1024 front n in
    (f : ℕ) × (m : ℕ) × (o
      ≡ some (f, nread + length (line w), out ++ take (count - nread) (line w)))
    × (f < 1024)
    × (m < n)
    × (get_or buf (before f) 0 ≡ 0)
    × (window buf 1024 f m ≡ later w)
    × (place 1024 f m ≡ place 1024 front n)

take_nil : (n : ℕ) → take {A = ℕ} n [] ≡ []
take_nil zero = refl
take_nil (suc n) = refl

before-succ : (i : ℕ) → i < 1024 → before (succ 1024 i) ≡ i
before-succ i h = ground arith

-- A byte that is kept while there is room for it is the first of those kept.
take-step :
    (count nread ch : ℕ) (out l : List ℕ)
    → (if ltb nread count && true then out ++ (ch ∷ []) else out) ++ take (count - (nread + 1)) l
      ≡ out ++ take (count - nread) (ch ∷ l)
take-step count nread ch out l = elim (Bool-cases (ltb nread count)) [
  | inl e ↦
      let n : count - nread ≡ suc (count - (nread + 1)) = ground (arith, ltb→lt nread count e) in
      rw (e, n) (append_assoc out (ch ∷ []) (take (count - (nread + 1)) l))
  | inr e ↦
      let n : count - nread ≡ 0 = omega (arith, ltb→le nread count e) in
      let m : count - (nread + 1) ≡ 0 = omega (arith, ltb→le nread count e) in rw (e, n, m) refl
]

read_loop-After :
    (fuel : ℕ) (buf : List ℕ) (n front count nread : ℕ) (out : List ℕ)
    → n ≤ fuel
    → n ≤ 1024
    → front < 1024
    → ended (window buf 1024 front n) ≢ 0
    → After buf n front count nread out (read_loop fuel buf count front nread out)
unfolding read_loop
read_loop-After fuel buf zero front count nread out a b c d = absurd (d refl)
read_loop-After zero buf (suc n) front count nread out a b c d = absurd (omega arith)
read_loop-After (suc fuel) buf (suc n) front count nread out a b c d =
    elim (Bool-cases (get_or buf front 0 == 0)) [
      | inl e ↦ (
        succ 1024 front,
        n,
        rw e (
            ap (λ (x : ℕ × List ℕ). some (succ 1024 front, x.0, x.1))
              (λ i. (
                nothing i,
                (unread (ltb nread count)
                      ∙ sym (append-nil out)
                      ∙ ap (λ t. out ++ t) (sym (take_nil (count - nread))))
                    i,
              ))),
        ground (arith, c),
        omega arith,
        here e,
        rw e refl,
        place-succ 1024 front n c b,
      )
      | inr e ↦
          let r =
            read_loop-After fuel buf n (succ 1024 front) count (nread + 1)
              (if ltb nread count && true then out ++ (get_or buf front 0 ∷ []) else out)
              (omega arith) (omega arith) (ground (arith, c)) (λ z. d (rw e z)) in
          (
            r.0,
            r.1,
            rw e (
                r.2 ∙ (λ i. some (
                  r.0,
                  one_more n i,
                  take-step count nread (get_or buf front 0) out
                      (line (window buf 1024 (succ 1024 front) n)) i,
                ))),
            r.3,
            omega (arith, r.4),
            r.5,
            rw e (r.6),
            r.7 ∙ place-succ 1024 front n c b,
          )
    ]
  where
    one_more :
        (n : ℕ)
        → nread + 1 + length (line (window buf 1024 (succ 1024 front) n))
          ≡ nread + suc (length (line (window buf 1024 (succ 1024 front) n)))
    one_more n = omega arith

    nothing : nread ≡ nread + 0
    nothing = omega arith

    unread : (b : Bool) → (if b && false then out ++ (get_or buf front 0 ∷ []) else out) ≡ out
    unread true = refl
    unread false = refl

    here : (get_or buf front 0 == 0) ≡ true → get_or buf (before (succ 1024 front)) 0 ≡ 0
    here e = ap (λ i. get_or buf i 0) (before-succ front c) ∙ ==→eq (get_or buf front 0) 0 e

-- A read of a valid queue with a line in it returns the length of the first line, copies as many of the
-- line's first bytes as there is room for, and leaves the bytes after the line, still valid and counted.
-- It has fuel enough with one unit for each of the 1024 places.
pub tty_read-line :
    (fuel count : ℕ) (t : Lines)
    → 1024 ≤ fuel
    → Cooked t
    → t.cooked ≢ 0
    → (u : Lines) × (tty_read fuel count t
        ≡ got (length (line (pending t.queue))) (take count (line (pending t.queue))) u)
      × Cooked u
      × (pending u.queue ≡ later (pending t.queue))
unfolding tty_read
tty_read-line fuel count t h v c =
    let q = t.queue in
    let i = v.queue_IsValid in
    let n = gap 1024 q.front q.rear in
    let lt : n < 1024 = ground (arith, i.front_in, i.rear_in) in
    let r =
      read_loop-After fuel q.buf n q.front count 0 [] (omega (arith, h, lt)) (omega (arith, lt))
        i.front_in (λ z. c (v.counted ∙ z)) in
    let some_cooked : (t.cooked == 0) ≡ false = ground (arith, c) in
    let u : Lines = record { queue = record q { front = r.0 }; cooked = t.cooked - 1 } in
    let left : gap 1024 r.0 q.rear ≡ r.1 =
      ground (arith, r.7, r.3, r.4, lt, i.front_in, i.rear_in) in
    let none_yet : 0 + length (line (pending q)) ≡ length (line (pending q)) = omega arith in
    let whole_room : count - 0 ≡ count = omega arith in
    let rest : pending u.queue ≡ later (pending q) = ap (window q.buf 1024 r.0) left ∙ r.6 in
    (
      u,
      rw (some_cooked, r.2) (λ j. got (none_yet j) (take (whole_room j) (line (pending q))) u),
      record {
        queue_IsValid = record { room = i.room; front_in = r.3; rear_in = i.rear_in; fenced = r.5 };
        counted = omega (arith, v.counted, ap ended rest, ended-later (pending q));
      },
      rest,
    )
