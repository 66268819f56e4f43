-- ===== src/Klib/Str/Copy.antt =====
-- The functions of string.c that copy a string.
use os_workbench.Base.{
  ℕ, zero, suc, ◌+◌, ◌≤◌, ◌<◌, ◌≡◌, refl, ◌≢◌, ◌⊎◌, inl, true, false, List, [], ◌∷◌, ◌++◌, arith,
  ◌==◌, ltb, length, get_elem?, set, length-set, get_elem?-set_self, get_elem?-set_ne, ◌∙◌, take,
}
use mathlib.Core.Path.{subst}
use os_workbench.Base.Run.{ok}
use os_workbench.Klib.Mem.{Mem, load-ok, store-ok}
use os_workbench.Klib.Str.{rounds, copy_loop, strcpy, strcat, ncopy_loop, strncpy}
use os_workbench.Klib.Str.Len.{CStr, CStr-lt, strlen-length}

-- The memories agree before `a` and behind `b`.
abbrev pub Outside : Mem → Mem → ℕ → ℕ → Type 0
Outside m m' a b = (q : ℕ) → (q < a) ⊎ (b < q) → get_elem? m' q ≡ get_elem? m q

-- The `n + 1` bytes at `a` and at `b` do not overlap.
abbrev pub Apart : ℕ → ℕ → ℕ → Type 0
Apart a b n = (a + n < b) ⊎ (b + n < a)

-- A string stays where nothing is written to it.
pub CStr-frame :
    (m m' : Mem) (p : ℕ) (s : List ℕ)
    → ((q : ℕ) → p ≤ q → q ≤ p + length s → get_elem? m' q ≡ get_elem? m q)
    → CStr m p s
    → CStr m' p s
CStr-frame m m' p [] same h = same p (omega arith) (omega arith) ∙ h
CStr-frame m m' p (c ∷ s) same h = (
  same p (omega arith) (omega arith) ∙ h.0,
  h.1,
  CStr-frame m m' (p + 1) s (λ q a b. same q (omega arith) (omega arith)) h.2,
)

-- What a copy of `s` to `d` has done.
pub record Copied (m m' : Mem) (d : ℕ) (s : List ℕ) : Type 0 where
  pub there : CStr m' d s
  pub outside : Outside m m' d (d + length s)
  pub size : length m' ≡ length m

Copied-cons :
    (m m' : Mem) (d c : ℕ) (s : List ℕ)
    → c ≢ 0
    → d < length m
    → Copied (set m d c) m' (d + 1) s
    → Copied m m' d (c ∷ s)
Copied-cons m m' d c s ne h k = record {
  there = (k.outside d (omega arith) ∙ get_elem?-set_self m d c h, ne, k.there);
  outside = λ q o. k.outside q (omega arith) ∙ get_elem?-set_ne m d q c (omega arith);
  size = k.size ∙ length-set m d c;
}

copy_loop-Copied :
    (fuel : ℕ) (m : Mem) (dst src i d : ℕ) (s : List ℕ)
    → d ≡ dst + i
    → CStr m (src + i) s
    → d + length s < length m
    → Apart d (src + i) (length s)
    → length s < fuel
    → (m' : Mem) × (copy_loop fuel m dst src i ≡ ok m') × Copied m m' d s
unfolding copy_loop
copy_loop-Copied zero m dst src i d s e h b a f = absurd (omega arith)
copy_loop-Copied (suc fuel) m dst src i d [] e h b a f = (
  set m d 0,
  rw (load-ok m (src + i) 0 h, ← e, store-ok m d 0 (omega arith)) refl,
  record {
    there = get_elem?-set_self m d 0 (omega arith);
    outside = λ q o. get_elem?-set_ne m d q 0 (omega arith);
    size = length-set m d 0;
  },
)
copy_loop-Copied (suc fuel) m dst src i d (c ∷ s) e h b a f =
    let m1 = set m d c in
    let next : CStr m1 (src + (i + 1)) s =
      CStr-frame m m1 (src + (i + 1)) s (λ q x y. get_elem?-set_ne m d q c (omega arith))
        (subst (λ q. CStr m q s) (omega arith) h.2) in
    let r =
      copy_loop-Copied fuel m1 dst src (i + 1) (d + 1) s (omega arith) next
        (omega (arith, length-set m d c)) (omega arith) (omega arith) in
    let nz : (c == 0) ≡ false = ground (arith, h.1) in
    (
      r.0,
      rw (load-ok m (src + i) c h.0, ← e, store-ok m d c (omega arith), nz) r.1,
      Copied-cons m r.0 d c s h.1 (omega arith) r.2,
    )

-- `strcpy` to a place with room for the string and its NUL, apart from it, ends, puts the string
-- there, and writes nowhere else.
pub strcpy-Copied :
    (m : Mem) (dst src : ℕ) (s : List ℕ)
    → CStr m src s
    → dst + length s < length m
    → Apart dst src (length s)
    → (m' : Mem) × (strcpy m dst src ≡ ok m') × Copied m m' dst s
unfolding strcpy
strcpy-Copied m dst src s h b a =
    copy_loop-Copied (rounds m) m dst src 0 dst s (omega arith)
      (subst (λ q. CStr m q s) (omega arith) h) b (omega arith) (omega (arith, CStr-lt m src s h))

CStr-append :
    (m m' : Mem) (p : ℕ) (s t : List ℕ)
    → CStr m p s
    → ((q : ℕ) → q < p + length s → get_elem? m' q ≡ get_elem? m q)
    → CStr m' (p + length s) t
    → CStr m' p (s ++ t)
CStr-append m m' p [] t h same k = subst (λ q. CStr m' q t) (omega arith) k
CStr-append m m' p (c ∷ s) t h same k = (
  same p (omega arith) ∙ h.0,
  h.1,
  CStr-append m m' (p + 1) s t h.2 (λ q l. same q (omega arith))
      (subst (λ q. CStr m' q t) (omega arith) k),
)

-- `strcat` to a string with room behind it, apart from the second string, ends and leaves the two
-- strings joined there; it changes nothing before the first NUL and nothing behind the new one.
pub strcat-append :
    (m : Mem) (dst src : ℕ) (s t : List ℕ)
    → CStr m dst s
    → CStr m src t
    → dst + length s + length t < length m
    → Apart (dst + length s) src (length t)
    → (m' : Mem) × (strcat m dst src ≡ ok m')
      × CStr m' dst (s ++ t)
      × Outside m m' (dst + length s) (dst + length s + length t)
unfolding strcat
strcat-append m dst src s t h k b a =
    let r =
      copy_loop-Copied (rounds m) m (dst + length s) src 0 (dst + length s) t (omega arith)
        (subst (λ q. CStr m q t) (omega arith) k) b (omega arith)
        (omega (arith, CStr-lt m src t k)) in
    (
      r.0,
      rw (strlen-length m dst s h) r.1,
      CStr-append m r.0 dst s t h (λ q l. r.2.outside q (inl l)) r.2.there,
      r.2.outside,
    )

ncopy_loop-Copied :
    (fuel : ℕ) (m : Mem) (dst src n i k d : ℕ) (s : List ℕ)
    → d ≡ dst + i
    → n ≡ i + k
    → CStr m (src + i) s
    → d + length (take k s) < length m
    → Apart d (src + i) (length s)
    → length s < fuel
    → (m' : Mem) × (ncopy_loop fuel m dst src n i ≡ ok m') × Copied m m' d (take k s)
unfolding ncopy_loop
ncopy_loop-Copied zero m dst src n i k d s e g h b a f = absurd (omega arith)
ncopy_loop-Copied (suc fuel) m dst src n i zero d s e g h b a f =
    let stop : ltb i n ≡ false = ground arith in
    (
      set m d 0,
      rw (stop, ← e, store-ok m d 0 (omega arith)) refl,
      record {
        there = get_elem?-set_self m d 0 (omega arith);
        outside = λ q o. get_elem?-set_ne m d q 0 (omega arith);
        size = length-set m d 0;
      },
    )
ncopy_loop-Copied (suc fuel) m dst src n i (suc k) d [] e g h b a f =
    let go : ltb i n ≡ true = ground arith in
    (
      set m d 0,
      rw (go, load-ok m (src + i) 0 h, ← e, store-ok m d 0 (omega arith)) refl,
      record {
        there = get_elem?-set_self m d 0 (omega arith);
        outside = λ q o. get_elem?-set_ne m d q 0 (omega arith);
        size = length-set m d 0;
      },
    )
ncopy_loop-Copied (suc fuel) m dst src n i (suc k) d (c ∷ s) e g h b a f =
    let m1 = set m d c in
    let next : CStr m1 (src + (i + 1)) s =
      CStr-frame m m1 (src + (i + 1)) s (λ q x y. get_elem?-set_ne m d q c (omega arith))
        (subst (λ q. CStr m q s) (omega arith) h.2) in
    let r =
      ncopy_loop-Copied fuel m1 dst src n (i + 1) k (d + 1) s (omega arith) (omega arith) next
        (omega (arith, length-set m d c)) (omega arith) (omega arith) in
    let nz : (c == 0) ≡ false = ground (arith, h.1) in
    let go : ltb i n ≡ true = ground arith in
    (
      r.0,
      rw (go, load-ok m (src + i) c h.0, ← e, store-ok m d c (omega arith), nz) r.1,
      Copied-cons m r.0 d c (take k s) h.1 (omega arith) r.2,
    )

-- `strncpy` with limit `n`, apart from its source and with room for what it writes, ends and leaves a
-- string: the first `n` bytes of the source, or all of it, and always a NUL behind them. It fills
-- nothing up, and writes nowhere else.
pub strncpy-take :
    (m : Mem) (dst src n : ℕ) (s : List ℕ)
    → CStr m src s
    → dst + length (take n s) < length m
    → Apart dst src (length s)
    → (m' : Mem) × (strncpy m dst src n ≡ ok m') × Copied m m' dst (take n s)
unfolding strncpy
strncpy-take m dst src n s h b a =
    ncopy_loop-Copied (rounds m) m dst src n 0 n dst s (omega arith) (omega arith)
      (subst (λ q. CStr m q s) (omega arith) h) b (omega arith) (omega (arith, CStr-lt m src s h))
