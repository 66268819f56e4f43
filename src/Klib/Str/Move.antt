-- ===== src/Klib/Str/Move.antt =====
-- The functions of string.c that move blocks of bytes.
use os_workbench.Base.{
  ℕ, zero, suc, ◌+◌, ◌-◌, ◌≤◌, ◌<◌, ◌≡◌, refl, ◌⊎◌, inl, inr, true, false, some, arith, ◌==◌, ltb,
  length, get_elem?, set, length-set, get_elem?-set_self, get_elem?-set_ne, get_elem?-some, ap, ◌∙◌,
  Bool-cases, Option-cases, sym,
}
use os_workbench.Base.Run.{ok, fault}
use os_workbench.Klib.Mem.{Mem, load-ok, store-ok, load-none, store-fault}
use os_workbench.Klib.Str.{rounds, memcpy_loop, memcpy, memmove_up, memmove}

-- The `n` bytes at `out` are what the `n` bytes at `src` were, and the rest is as it was.
pub record Moved (m m' : Mem) (out src n : ℕ) : Type 0 where
  pub there : (k : ℕ) → k < n → get_elem? m' (out + k) ≡ get_elem? m (src + k)
  pub outside : (q : ℕ) → (q < out) ⊎ (out + n ≤ q) → get_elem? m' q ≡ get_elem? m q
  pub size : length m' ≡ length m

-- No byte is read after it was written: the destination is not above the source, or they are apart.
abbrev pub Forward : ℕ → ℕ → ℕ → Type 0
Forward out src n = (out ≤ src) ⊎ (src + n ≤ out)

Moved-suc :
    (m m' : Mem) (out src n c : ℕ)
    → out < length m
    → get_elem? m src ≡ some c
    → Forward out src (suc n)
    → Moved (set m out c) m' (out + 1) (src + 1) n
    → Moved m m' out src (suc n)
Moved-suc m m' out src n c h e f w = record {
  there = λ k l. there k l;
  outside = λ q o. w.outside q (omega arith) ∙ get_elem?-set_ne m out q c (omega arith);
  size = w.size ∙ length-set m out c;
}
  where
    first : get_elem? m' out ≡ get_elem? m src
    first = w.outside out (inl (omega arith)) ∙ get_elem?-set_self m out c h ∙ sym e

    there : (k : ℕ) → k < suc n → get_elem? m' (out + k) ≡ get_elem? m (src + k)
    there zero l = ap (get_elem? m') (omega arith) ∙ first ∙ ap (get_elem? m) (omega arith)
    there (suc k) l =
        ap (get_elem? m') (omega arith)
        ∙ w.there k (omega arith)
        ∙ get_elem?-set_ne m out (src + 1 + k) c (omega arith)
        ∙ ap (get_elem? m) (omega arith)

memcpy_loop-Moved :
    (n : ℕ) (m : Mem) (out src : ℕ)
    → out + n ≤ length m
    → src + n ≤ length m
    → Forward out src n
    → (m' : Mem) × (memcpy_loop n m out src ≡ ok m') × Moved m m' out src n
unfolding memcpy_loop
memcpy_loop-Moved zero m out src h k f =
    (m, refl, record { there = λ j l. absurd (omega arith); outside = λ q o. refl; size = refl })
memcpy_loop-Moved (suc n) m out src h k f =
    let (c, e) = get_elem?-some m src (omega arith) in
    let m1 = set m out c in
    let r =
      memcpy_loop-Moved n m1 (out + 1) (src + 1) (omega (arith, length-set m out c))
        (omega (arith, length-set m out c)) (omega arith) in
    (
      r.0,
      rw (load-ok m src c e, store-ok m out c (omega arith)) r.1,
      Moved-suc m r.0 out src n c (omega arith) e f r.2,
    )

-- `memcpy` of blocks inside the memory that are apart, or of which the destination is not above the
-- source, ends, moves the block and changes nothing else.
pub memcpy-Moved :
    (m : Mem) (out src n : ℕ)
    → out + n ≤ length m
    → src + n ≤ length m
    → Forward out src n
    → (m' : Mem) × (memcpy m out src n ≡ ok m') × Moved m m' out src n
unfolding memcpy
memcpy-Moved m out src n = memcpy_loop-Moved n m out src

-- `memmove` to a destination that is not above the source ends, moves the block, however the two
-- overlap, and changes nothing else.
pub memmove-Moved :
    (m : Mem) (dest src n : ℕ)
    → dest ≤ src
    → src + n ≤ length m
    → (m' : Mem) × (memmove m dest src n ≡ ok m') × Moved m m' dest src n
unfolding memmove
memmove-Moved m dest src n d h =
    let down : ltb src dest ≡ false = ground arith in
    rw down (memcpy_loop-Moved n m dest src (omega arith) h (inl d))

memmove_up-fault :
    (fuel : ℕ) (m : Mem) (dest src i : ℕ)
    → length m < fuel + (dest + i)
    → 0 < fuel
    → memmove_up fuel m dest src i ≡ fault
unfolding memmove_up
memmove_up-fault zero m dest src i h f = absurd (omega arith)
memmove_up-fault (suc fuel) m dest src i h f = elim (Option-cases (get_elem? m (src + i))) [
  | inl e ↦ rw (load-none m (src + i) e) refl
  | inr (c, e) ↦ elim (Bool-cases (ltb (dest + i) (length m))) [
    | inl l ↦
        rw (load-ok m (src + i) c e, store-ok m (dest + i) c (ground arith))
          (memmove_up-fault fuel (set m (dest + i) c) dest src (i + 1)
            (ground (arith, length-set m (dest + i) c)) (ground arith))
    | inr g ↦ rw (load-ok m (src + i) c e, store-fault m (dest + i) c (ground arith)) refl
  ]
]

-- `memmove` of at least one byte to a destination above the source does not return: its run ends in an
-- access outside the memory, whatever the memory holds and however large it is.
pub memmove-fault : (m : Mem) (dest src n : ℕ) → src < dest → 0 < n → memmove m dest src n ≡ fault
unfolding memmove
memmove-fault m dest src n d h =
    let up : ltb src dest ≡ true = ground arith in
    let some_bytes : (n == 0) ≡ false = ground arith in
    rw (up, some_bytes) (memmove_up-fault (rounds m) m dest src (n - 1) (omega arith) (omega arith))
