-- ===== src/Base/Window.antt =====
-- Circular storage: the items from an index on, going round at the capacity. The kernel's rings step
-- an index by one and set it back to 0 at the capacity.
use Prim.Native.Nat.{ℕ, zero, suc, ◌+◌, ◌-◌, ◌≤◌, ◌<◌}
use mathlib.Core.Path.{◌≡◌, refl, ap, ap₂, sym, ◌∙◌}
use mathlib.Core.Logic.{◌≢◌}
use mathlib.Core.List.{List, [], ◌∷◌, ◌++◌}
use native.Mathlib.Omega.{arith}
use os_workbench.Base.Tests.{ltb, ◌==◌, if◌then◌else◌}
use os_workbench.Base.Lists.{length, get_or, set, get_or-set_self, get_or-set_ne}

-- the index after `i`
abbrev pub succ : ℕ → ℕ → ℕ
succ cap i = if (i + 1) == cap then 0 else i + 1

-- the index `n` places after `h`
abbrev pub place : ℕ → ℕ → ℕ → ℕ
place cap h n = if ltb (h + n) cap then h + n else h + n - cap

-- how many places lie from `h` up to `t`
abbrev pub gap : ℕ → ℕ → ℕ → ℕ
gap cap h t = if ltb t h then t + cap - h else t - h

abbrev pub window : List ℕ → ℕ → ℕ → ℕ → List ℕ
window buf cap h zero = []
window buf cap h (suc n) = get_or buf h 0 ∷ window buf cap (succ cap h) n

pub place-succ :
    (cap h n : ℕ) → h < cap → suc n ≤ cap → place cap (succ cap h) n ≡ place cap h (suc n)
place-succ cap h n a b = ground arith

pub length-window : (buf : List ℕ) (cap h n : ℕ) → length (window buf cap h n) ≡ n
length-window buf cap h zero = refl
length-window buf cap h (suc n) = ap suc (length-window buf cap (succ cap h) n)

-- Taking the first item steps the head.
pub window-pos :
    (buf : List ℕ) (cap h n : ℕ)
    → n ≢ 0
    → window buf cap h n ≡ get_or buf h 0 ∷ window buf cap (succ cap h) (n - 1)
window-pos buf cap h zero p = absurd (p refl)
window-pos buf cap h (suc n) p = ap (λ k. window buf cap h (suc k)) (omega arith)

-- A write at the place behind a window adds its value at the window's end.
pub window-set :
    (buf : List ℕ) (cap h n i x : ℕ)
    → cap ≤ length buf
    → h < cap
    → n < cap
    → i ≡ place cap h n
    → window (set buf i x) cap h (suc n) ≡ window buf cap h n ++ (x ∷ [])
window-set buf cap h zero i x a b c e =
    ap (λ v. v ∷ [])
      (ap (λ j. get_or (set buf j x) h 0) here ∙ get_or-set_self buf h x 0 (omega arith))
  where
    here : i ≡ h
    here = ground arith
window-set buf cap h (suc n) i x a b c e = ap₂ ◌∷◌ (get_or-set_ne buf i h x 0 (ground arith)) (
    window-set buf cap (succ cap h) n i x a (ground arith) (omega arith)
      (e ∙ sym (place-succ cap h n b (omega arith))))

-- A write behind a window leaves it alone.
pub window-set_out :
    (buf : List ℕ) (cap h n m i x : ℕ)
    → h < cap
    → n ≤ m
    → m < cap
    → i ≡ place cap h m
    → window (set buf i x) cap h n ≡ window buf cap h n
window-set_out buf cap h zero m i x a b c e = refl
window-set_out buf cap h (suc n) zero i x a b c e = absurd (omega arith)
window-set_out buf cap h (suc n) (suc m) i x a b c e =
    ap₂ ◌∷◌ (get_or-set_ne buf i h x 0 (ground arith)) (
      window-set_out buf cap (succ cap h) n m i x (ground arith) (omega arith) (omega arith)
        (e ∙ sym (place-succ cap h m a (omega arith))))

-- The last item of a window.
pub window-snoc :
    (buf : List ℕ) (cap h n : ℕ)
    → h < cap
    → n < cap
    → window buf cap h (suc n) ≡ window buf cap h n ++ (get_or buf (place cap h n) 0 ∷ [])
window-snoc buf cap h zero a b = ap (λ i. get_or buf i 0 ∷ []) (ground arith)
window-snoc buf cap h (suc n) a b =
    ap (λ t. get_or buf h 0 ∷ t)
      (window-snoc buf cap (succ cap h) n (ground arith) (omega arith)
        ∙ ap (λ i. window buf cap (succ cap h) n ++ (get_or buf i 0 ∷ []))
            (place-succ cap h n a (omega arith)))
