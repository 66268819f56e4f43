-- ===== src/Klib/Str/Len.antt =====
-- C strings in the memory, and the functions of string.c that measure or search one.
use os_workbench.Base.{
  ℕ, zero, suc, ◌+◌, ◌≤◌, ◌<◌, ◌≡◌, ◌≢◌, Option, none, some, List, [], ◌∷◌, arith, ◌==◌,
  if◌then◌else◌, length, get_elem?,
}
use mathlib.Core.Path.{subst}
use Prim.Native.Nat.{min}
use os_workbench.Base.Run.{ok}
use os_workbench.Klib.Mem.{Mem, load}
use os_workbench.Klib.Str.{rounds, strlen_loop, strlen, strnlen_loop, strnlen, strchr_loop, strchr}

-- From `p` the memory holds the bytes `s`, none of them NUL, and then a NUL.
abbrev pub CStr : Mem → ℕ → List ℕ → Type 0
CStr m p [] = get_elem? m p ≡ some 0
CStr m p (c ∷ s) = (get_elem? m p ≡ some c) × (c ≢ 0) × CStr m (p + 1) s

pub get_elem?-lt : (m : Mem) (p : ℕ) {c : ℕ} → get_elem? m p ≡ some c → p < length m
get_elem?-lt [] p e = absurd (cc e)
get_elem?-lt (x ∷ m) zero e = omega arith
get_elem?-lt (x ∷ m) (suc p) e = omega (arith, get_elem?-lt m p e)

-- A string with its NUL lies inside the memory.
pub CStr-lt : (m : Mem) (p : ℕ) (s : List ℕ) → CStr m p s → p + length s < length m
CStr-lt m p [] h = omega (arith, get_elem?-lt m p h)
CStr-lt m p (c ∷ s) h = omega (arith, CStr-lt m (p + 1) s h.2)

strlen_loop-CStr :
    (fuel : ℕ) (m : Mem) (p i : ℕ) (s : List ℕ)
    → CStr m (p + i) s
    → length s < fuel
    → strlen_loop fuel m p i ≡ ok (i + length s)
unfolding strlen_loop load
strlen_loop-CStr zero m p i s h f = absurd (omega arith)
strlen_loop-CStr (suc fuel) m p i [] h f = ground (arith, h)
strlen_loop-CStr (suc fuel) m p i (c ∷ s) h f =
    let next : CStr m (p + (i + 1)) s = subst (λ q. CStr m q s) (omega arith) h.2 in
    ground (arith, h.0, h.1, strlen_loop-CStr fuel m p (i + 1) s next)

-- `strlen` returns the length of the string.
pub strlen-length : (m : Mem) (p : ℕ) (s : List ℕ) → CStr m p s → strlen m p ≡ ok (length s)
unfolding strlen
strlen-length m p s h = ground (
  arith,
  strlen_loop-CStr (rounds m) m p 0 s (subst (λ q. CStr m q s) (omega arith) h),
  CStr-lt m p s h,
)

strnlen_loop-CStr :
    (fuel : ℕ) (m : Mem) (p n i : ℕ) (s : List ℕ)
    → CStr m (p + i) s
    → length s < fuel
    → i ≤ n
    → strnlen_loop fuel m p n i ≡ ok (min n (i + length s))
unfolding strnlen_loop load
strnlen_loop-CStr zero m p n i s h f l = absurd (omega arith)
strnlen_loop-CStr (suc fuel) m p n i [] h f l = ground (arith, h)
strnlen_loop-CStr (suc fuel) m p n i (c ∷ s) h f l =
    let next : CStr m (p + (i + 1)) s = subst (λ q. CStr m q s) (omega arith) h.2 in
    ground (arith, h.0, h.1, strnlen_loop-CStr fuel m p n (i + 1) s next)

-- `strnlen` returns the length, cut at the limit.
pub strnlen-min :
    (m : Mem) (p n : ℕ) (s : List ℕ) → CStr m p s → strnlen m p n ≡ ok (min n (length s))
unfolding strnlen
strnlen-min m p n s h = ground (
  arith,
  strnlen_loop-CStr (rounds m) m p n 0 s (subst (λ q. CStr m q s) (omega arith) h),
  CStr-lt m p s h,
)

-- the pointer to the first place of a byte in a string at `p`
abbrev pub first_at : ℕ → ℕ → List ℕ → Option ℕ
first_at p c [] = none
first_at p c (a ∷ s) = if a == c then some p else first_at (p + 1) c s

strchr_loop-first_at :
    (fuel : ℕ) (m : Mem) (p c : ℕ) (s : List ℕ)
    → CStr m p s
    → length s < fuel
    → strchr_loop fuel m p c ≡ ok (first_at p c s)
unfolding strchr_loop load
strchr_loop-first_at zero m p c s h f = absurd (omega arith)
strchr_loop-first_at (suc fuel) m p c [] h f = ground (arith, h)
strchr_loop-first_at (suc fuel) m p c (a ∷ s) h f =
    ground (arith, h.0, h.1, strchr_loop-first_at fuel m (p + 1) c s h.2)

-- `strchr` returns the pointer to the first place of the byte in the string, and NULL if the string
-- does not hold it (so it is NULL for the NUL byte, too).
pub strchr-first_at :
    (m : Mem) (p c : ℕ) (s : List ℕ) → CStr m p s → strchr m p c ≡ ok (first_at p c s)
unfolding strchr
strchr-first_at m p c s h =
    ground (arith, strchr_loop-first_at (rounds m) m p c s h, CStr-lt m p s h)
