-- ===== src/Pipe/Ring.antt =====
-- Blocks of bytes that go into and out of the ring of kernel/src/pipe.c.
use os_workbench.Base.{
  ℕ, zero, suc, ◌+◌, ◌-◌, ◌≤◌, ◌<◌, ◌≡◌, refl, List, [], ◌∷◌, ◌++◌, arith, ◌==◌, if◌then◌else◌,
  get_or, set, take, drop, length, length-set, ap, ◌∙◌, sym,
}
use mathlib.Core.List.{append_assoc, append-nil}
use os_workbench.Base.Window.{succ, place, window, window-set}
use os_workbench.Pipe.{slice, put}

-- An index at the end stands for the start.
abbrev pub turn : ℕ → ℕ
turn i = if i == 0x100 then 0 else i

pub length-put : (m : List ℕ) (i : ℕ) (bs : List ℕ) → length (put m i bs) ≡ length m
length-put m i [] = refl
length-put m i (b ∷ bs) = length-put (set m i b) (i + 1) bs ∙ length-set m i b

-- Bytes written behind a window come behind what it holds.
pub window-put :
    (bs m : List ℕ) (h n i : ℕ)
    → length m ≡ 0x100
    → h < 0x100
    → n + length bs < 0x100
    → i + length bs ≤ 0x100
    → turn i ≡ place 0x100 h n
    → window (put m i bs) 0x100 h (n + length bs) ≡ window m 0x100 h n ++ bs
window-put [] m h n i l a b c e =
    ap (window m 0x100 h) (omega arith) ∙ sym (append-nil (window m 0x100 h n))
window-put (x ∷ bs) m h n i l a b c e =
    ap (window (put (set m i x) (i + 1) bs) 0x100 h) (omega arith)
    ∙ window-put bs (set m i x) h (suc n) (i + 1) (length-set m i x ∙ l) a (omega arith)
        (omega arith) (ground arith)
    ∙ ap (λ w. w ++ bs) (window-set m 0x100 h n i x (omega arith) a (omega arith) (ground arith))
    ∙ append_assoc (window m 0x100 h n) (x ∷ []) bs

-- Bytes read from the front of a window are its first, and leave the others.
pub window-slice :
    (c : ℕ) (m : List ℕ) (i n : ℕ)
    → i + c ≤ 0x100
    → c ≤ n
    → (slice m i c ≡ take c (window m 0x100 (turn i) n))
      × (window m 0x100 (turn (i + c)) (n - c) ≡ drop c (window m 0x100 (turn i) n))
window-slice zero m i n a b =
    let e : i + 0 ≡ i = omega arith in let f : n - 0 ≡ n = omega arith in (refl, rw (e, f) refl)
window-slice (suc c) m i zero a b = absurd (omega arith)
window-slice (suc c) m i (suc n) a b =
    let here : turn i ≡ i = ground arith in
    let next : succ 0x100 (turn i) ≡ turn (i + 1) = ground arith in
    let e : i + suc c ≡ i + 1 + c = omega arith in
    let f : suc n - suc c ≡ n - c = omega arith in
    let r = window-slice c m (i + 1) n (omega arith) (omega arith) in
    (
      rw next (
          ap (λ j. get_or m j 0 ∷ slice m (i + 1) c) (sym here)
          ∙ ap (λ t. get_or m (turn i) 0 ∷ t) r.0),
      rw (next, e, f) (r.1),
    )

take_nil : (n : ℕ) → take {A = ℕ} n [] ≡ []
take_nil zero = refl
take_nil (suc n) = refl

drop_nil : (n : ℕ) → drop {A = ℕ} n [] ≡ []
drop_nil zero = refl
drop_nil (suc n) = refl

pub take-take : (a b : ℕ) (xs : List ℕ) → take a xs ++ take b (drop a xs) ≡ take (a + b) xs
take-take zero b xs = ap (λ n. take n xs) (omega arith)
take-take (suc a) b [] = take_nil b ∙ sym (take_nil (suc a + b))
take-take (suc a) b (x ∷ xs) =
    let e : suc a + b ≡ suc (a + b) = omega arith in rw e (ap (λ t. x ∷ t) (take-take a b xs))

pub drop-drop : (a b : ℕ) (xs : List ℕ) → drop b (drop a xs) ≡ drop (a + b) xs
drop-drop zero b xs = ap (λ n. drop n xs) (omega arith)
drop-drop (suc a) b [] = drop_nil b ∙ sym (drop_nil (suc a + b))
drop-drop (suc a) b (x ∷ xs) =
    let e : suc a + b ≡ suc (a + b) = omega arith in rw e (drop-drop a b xs)
