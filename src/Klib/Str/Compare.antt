-- ===== src/Klib/Str/Compare.antt =====
-- The functions of string.c that compare.
use os_workbench.Base.{
  ℕ, zero, suc, ◌+◌, ◌<◌, ◌≡◌, refl, ◌≢◌, ◌↔◌, true, false, some, List, [], ◌∷◌, arith, ◌==◌,
  length, get_elem?, All, ap, ◌∙◌, take, Bool-cases, inl, inr,
}
use os_workbench.Base.Int.{ℤ, pos, ◌-ℤ◌}
use os_workbench.Base.Run.{ok}
use os_workbench.Klib.Mem.{Mem, load, load-ok}
use os_workbench.Klib.Str.{
  rounds, char, strcmp_loop, strcmp, strncmp_loop, strncmp, memcmp_loop, memcmp,
}
use os_workbench.Klib.Str.Len.{CStr, CStr-lt}

abbrev pub Bytes : List ℕ → Type 0
Bytes s = All (λ c. c < 256) s

char_eq : (a b : ℕ) → a < 256 → b < 256 → (char a -ℤ char b ≡ pos 0) ↔ (a ≡ b)
unfolding ◌-ℤ◌
char_eq a b h k = ground arith

abbrev ConsIff : (a b : ℕ) (s t : List ℕ) (r : ℤ) → Type 0
ConsIff a b s t r = (r ≡ pos 0) ↔ (◌≡◌ {A = List ℕ} (a ∷ s) (b ∷ t))

strcmp_loop-zero :
    (fuel : ℕ) (m : Mem) (p q : ℕ) (s t : List ℕ)
    → CStr m p s
    → CStr m q t
    → Bytes s
    → Bytes t
    → length s < fuel
    → (r : ℤ) × (strcmp_loop fuel m p q ≡ ok r) × ((r ≡ pos 0) ↔ (s ≡ t))
unfolding strcmp_loop load
strcmp_loop-zero zero m p q s t h k bs bt f = absurd (omega arith)
strcmp_loop-zero (suc fuel) m p q [] [] h k bs bt f =
    (char 0 -ℤ char 0, ground (arith, h, k), ground (arith, char_eq 0 0))
strcmp_loop-zero (suc fuel) m p q [] (b ∷ t) h k bs bt f =
    (char 0 -ℤ char b, ground (arith, h, k.0, k.1), ground (arith, char_eq 0 b, k.1, bt.0))
strcmp_loop-zero (suc fuel) m p q (a ∷ s) [] h k bs bt f =
    (char a -ℤ char 0, ground (arith, h.0, h.1, k), ground (arith, char_eq a 0, h.1, bs.0))
strcmp_loop-zero (suc fuel) m p q (a ∷ s) (b ∷ t) h k bs bt f = elim (Bool-cases (a == b)) [
  | inl e ↦
      let r = strcmp_loop-zero fuel m (p + 1) (q + 1) s t h.2 k.2 bs.1 bt.1 (omega arith) in
      (r.0, ground (arith, e, h.0, h.1, k.0, r.1), ground (arith, e, r.2))
  | inr e ↦
      (char a -ℤ char b, ground (arith, e, h.0, k.0), ground (arith, e, char_eq a b, bs.0, bt.0))
]

-- `strcmp` of two strings of bytes below 256 ends, and returns 0 exactly for equal strings.
pub strcmp-zero :
    (m : Mem) (p q : ℕ) (s t : List ℕ)
    → CStr m p s
    → CStr m q t
    → Bytes s
    → Bytes t
    → (r : ℤ) × (strcmp m p q ≡ ok r) × ((r ≡ pos 0) ↔ (s ≡ t))
unfolding strcmp
strcmp-zero m p q s t h k bs bt =
    strcmp_loop-zero (rounds m) m p q s t h k bs bt (omega (arith, CStr-lt m p s h))

strncmp_loop-zero :
    (fuel n : ℕ) (m : Mem) (p q : ℕ) (s t : List ℕ)
    → CStr m p s
    → CStr m q t
    → Bytes s
    → Bytes t
    → length s < fuel
    → (r : ℤ) × (strncmp_loop fuel m p q (suc n) ≡ ok r)
      × ((r ≡ pos 0) ↔ (take (suc n) s ≡ take (suc n) t))
unfolding strncmp_loop load
strncmp_loop-zero zero n m p q s t h k bs bt f = absurd (omega arith)
strncmp_loop-zero (suc fuel) n m p q [] [] h k bs bt f =
    (char 0 -ℤ char 0, ground (arith, h, k), ground (arith, char_eq 0 0))
strncmp_loop-zero (suc fuel) n m p q [] (b ∷ t) h k bs bt f =
    (char 0 -ℤ char b, ground (arith, h, k.0, k.1), ground (arith, char_eq 0 b, k.1, bt.0))
strncmp_loop-zero (suc fuel) n m p q (a ∷ s) [] h k bs bt f =
    (char a -ℤ char 0, ground (arith, h.0, h.1, k), ground (arith, char_eq a 0, h.1, bs.0))
strncmp_loop-zero (suc fuel) zero m p q (a ∷ s) (b ∷ t) h k bs bt f =
    (char a -ℤ char b, ground (arith, h.0, k.0), ground (arith, char_eq a b, bs.0, bt.0))
strncmp_loop-zero (suc fuel) (suc n) m p q (a ∷ s) (b ∷ t) h k bs bt f =
    elim (Bool-cases (a == b)) [
      | inl e ↦
          let r = strncmp_loop-zero fuel n m (p + 1) (q + 1) s t h.2 k.2 bs.1 bt.1 (omega arith) in
          (r.0, ground (arith, e, h.0, h.1, k.0, r.1), ground (arith, e, r.2))
      | inr e ↦ (
        char a -ℤ char b,
        ground (arith, e, h.0, k.0),
        ground (arith, e, char_eq a b, bs.0, bt.0),
      )
    ]

-- `strncmp` of two strings of bytes below 256 ends, and returns 0 exactly if their first `n` bytes
-- are equal.
pub strncmp-zero :
    (n : ℕ) (m : Mem) (p q : ℕ) (s t : List ℕ)
    → CStr m p s
    → CStr m q t
    → Bytes s
    → Bytes t
    → (r : ℤ) × (strncmp m p q n ≡ ok r) × ((r ≡ pos 0) ↔ (take n s ≡ take n t))
unfolding strncmp
strncmp-zero zero m p q s t h k bs bt = (pos 0, refl, (λ _. refl, λ _. refl))
strncmp-zero (suc n) m p q s t h k bs bt =
    let more : (suc n == 0) ≡ false = ground arith in
    rw more (strncmp_loop-zero (rounds m) n m p q s t h k bs bt (omega (arith, CStr-lt m p s h)))

memcmp_loop-turned :
    (n : ℕ) (m : Mem) (s1 s2 k a b : ℕ)
    → ((j : ℕ)
        → j < k
        → (c : ℕ) × (get_elem? m (s1 + j) ≡ some c) × (get_elem? m (s2 + j) ≡ some c))
    → get_elem? m (s1 + k) ≡ some a
    → get_elem? m (s2 + k) ≡ some b
    → a ≢ b
    → k < n
    → memcmp_loop n m s1 s2 ≡ ok (char b -ℤ char a)
unfolding memcmp_loop
memcmp_loop-turned zero m s1 s2 k a b same ea eb ne l = absurd (omega arith)
memcmp_loop-turned (suc n) m s1 s2 zero a b same ea eb ne l =
    let e1 : get_elem? m s1 ≡ some a = ap (get_elem? m) (omega arith) ∙ ea in
    let e2 : get_elem? m s2 ≡ some b = ap (get_elem? m) (omega arith) ∙ eb in
    let d : (b == a) ≡ false = ground arith in rw (load-ok m s1 a e1, load-ok m s2 b e2, d) refl
memcmp_loop-turned (suc n) m s1 s2 (suc k) a b same ea eb ne l =
    let (c, f1, f2) = same 0 (omega arith) in
    let e1 : get_elem? m s1 ≡ some c = ap (get_elem? m) (omega arith) ∙ f1 in
    let e2 : get_elem? m s2 ≡ some c = ap (get_elem? m) (omega arith) ∙ f2 in
    let d : (c == c) ≡ true = ground arith in
    rw (load-ok m s1 c e1, load-ok m s2 c e2, d)
      (memcmp_loop-turned n m (s1 + 1) (s2 + 1) k a b
        (λ j h.
          let (x, g1, g2) = same (suc j) (omega arith) in
          (x, ap (get_elem? m) (omega arith) ∙ g1, ap (get_elem? m) (omega arith) ∙ g2))
        (ap (get_elem? m) (omega arith) ∙ ea) (ap (get_elem? m) (omega arith) ∙ eb) ne
        (omega arith))

-- The sign of `memcmp` is turned round: at the first place where the blocks differ, it returns the
-- second block's byte less the first block's.
pub memcmp-turned :
    (m : Mem) (s1 s2 k a b n : ℕ)
    → ((j : ℕ)
        → j < k
        → (c : ℕ) × (get_elem? m (s1 + j) ≡ some c) × (get_elem? m (s2 + j) ≡ some c))
    → get_elem? m (s1 + k) ≡ some a
    → get_elem? m (s2 + k) ≡ some b
    → a ≢ b
    → k < n
    → memcmp m s1 s2 n ≡ ok (char b -ℤ char a)
unfolding memcmp
memcmp-turned m s1 s2 k a b n same ea eb ne l = memcmp_loop-turned n m s1 s2 k a b same ea eb ne l
