-- ===== src/Dir/Walk.antt =====
-- `dir_cat` of kernel/src/dir.c against a stack of layers.
use os_workbench.Base.{
  ℕ, suc, ◌<◌, ◌≡◌, refl, ◌≢◌, true, false, ◌&&◌, List, [], ◌∷◌, ◌++◌, arith, ◌==◌, if◌then◌else◌,
  length, length-append, take, All, Bool-cases, inl, inr,
}
use native.Mathlib.Numerals.{add-one}
use os_workbench.Dir.{slash, dot, same, cut_at, layer}
use os_workbench.Dir.Split.{Layer, NoSlash, cut_at_zero, cut_at_one}

-- The layers from the root down, the last first.
abbrev pub Stack : Type 0
Stack = List Layer

-- What a layer of a path does to the stack.
unfoldable pub go_into : Layer → Stack → Stack
go_into [] st = st
go_into (a ∷ []) st = if a == dot then st else (a ∷ []) ∷ st
go_into (a ∷ b ∷ []) [] = if (a == dot) && (b == dot) then [] else (a ∷ b ∷ []) ∷ []
go_into (a ∷ b ∷ []) (c ∷ st) = if (a == dot) && (b == dot) then st else (a ∷ b ∷ []) ∷ c ∷ st
go_into (a ∷ b ∷ c ∷ s) st = (a ∷ b ∷ c ∷ s) ∷ st

unfoldable pub walk : List Layer → Stack → Stack
walk [] st = st
walk (l ∷ ls) st = walk ls (go_into l st)

-- The path of a stack, with no slash at its end, and with one.
abbrev pub base : Stack → List ℕ
base [] = []
base (c ∷ st) = base st ++ (slash ∷ c)

abbrev pub open_path : Stack → List ℕ
open_path st = base st ++ (slash ∷ [])

abbrev pub path : Stack → List ℕ
path [] = slash ∷ []
path (c ∷ st) = base (c ∷ st)

-- Layers as the walk leaves them: not empty, and with no slash.
abbrev pub IsLayer : Layer → Type 0
IsLayer c = (c ≢ []) × NoSlash c

abbrev pub IsStack : Stack → Type 0
IsStack st = All IsLayer st

pub go_into-IsStack : (l : Layer) (st : Stack) → NoSlash l → IsStack st → IsStack (go_into l st)
unfolding go_into
go_into-IsStack [] st n h = h
go_into-IsStack (a ∷ []) st n h = elim (Bool-cases (a == dot)) [
  | inl t ↦ rw t h
  | inr f ↦ rw f (((λ e. cc e), n), h)
]
go_into-IsStack (a ∷ b ∷ []) [] n h = elim (Bool-cases ((a == dot) && (b == dot))) [
  | inl t ↦ rw t tt
  | inr f ↦ rw f (((λ e. cc e), n), tt)
]
go_into-IsStack (a ∷ b ∷ []) (c ∷ st) n h = elim (Bool-cases ((a == dot) && (b == dot))) [
  | inl t ↦ rw t (h.1)
  | inr f ↦ rw f (((λ e. cc e), n), h)
]
go_into-IsStack (a ∷ b ∷ c ∷ s) st n h = (((λ e. cc e), n), h)

-- The tests of `layer`, at the layer's bytes.
up : (st : Stack) (c : Layer) → NoSlash c → cut_at 1 (cut_at 0 (open_path (c ∷ st))) ≡ open_path st
up st c n = rw (cut_at_zero (base st ++ (slash ∷ c)) [] tt) (cut_at_one (base st) c n)

same-length : (s t : List ℕ) → same s t ≡ true → length s ≡ length t
same-length [] [] e = refl
same-length [] (b ∷ t) e = absurd (cc e)
same-length (a ∷ s) [] e = absurd (cc e)
same-length (a ∷ s) (b ∷ t) e = ground (arith, same-length s t)

-- Under a layer the path is not the root.
not_root : (st : Stack) (c : Layer) → IsLayer c → same (open_path (c ∷ st)) (slash ∷ []) ≡ false
not_root st [] h = absurd (h.0 refl)
not_root st (a ∷ c) h = elim (Bool-cases (same (open_path ((a ∷ c) ∷ st)) (slash ∷ []))) [
  | inr f ↦ f
  | inl t ↦ absurd (
      omega (
        arith,
        same-length (open_path ((a ∷ c) ∷ st)) (slash ∷ []) t,
        length-append (base st ++ (slash ∷ a ∷ c)) (slash ∷ []),
        length-append (base st) (slash ∷ a ∷ c),
      ))
]

-- `layer` in three cases, as `go_into` has them: the test for "." and "..", and any other layer.
layer-dot :
    (a : ℕ) (dest src : List ℕ)
    → take 1 src ≡ a ∷ []
    → layer 1 dest src ≡ (if a == dot then dest else dest ++ take 2 src)
unfolding layer
layer-dot a dest src e = elim (Bool-cases (a == dot)) [
  | inl t ↦ rw (e, t) refl
  | inr f ↦ rw (e, f) refl
]

layer_two :
    (a b : ℕ) (dest src : List ℕ)
    → take 2 src ≡ a ∷ b ∷ []
    → layer 2 dest src ≡ (
        if (a == dot) && (b == dot)
        then (if same dest (slash ∷ []) then dest else cut_at 1 (cut_at 0 dest))
        else dest ++ take 3 src)
unfolding layer
layer_two a b dest src e = elim (Bool-cases (a == dot)) [
  | inl t ↦ elim (Bool-cases (b == dot)) [ inl u ↦ rw (e, t, u) refl | inr g ↦ rw (e, t, g) refl ]
  | inr f ↦ rw (e, f) refl
]

layer_more : (n : ℕ) (dest src : List ℕ) → 2 < n → layer n dest src ≡ dest ++ take (suc n) src
unfolding layer
layer_more n dest src h =
    let n0 : (n == 0) ≡ false = ground arith in
    let n1 : (n == 1) ≡ false = ground arith in
    let n2 : (n == 2) ≡ false = ground arith in rw (n0, n1, n2, add-one) refl

-- The layer's effect on a path of a stack: what it leads to, or the text added, `l ++ more`.
pub layer-go_into :
    (P : List ℕ → Stack → Type 0) (l : Layer) (st : Stack) (src more : List ℕ)
    → IsStack st
    → take (length l) src ≡ l
    → take (suc (length l)) src ≡ l ++ more
    → ((st' : Stack) → IsStack st' → P (open_path st') st')
    → (l ≢ [] → P (open_path st ++ (l ++ more)) (l ∷ st))
    → P (layer (length l) (open_path st) src) (go_into l st)
unfolding go_into
layer-go_into P [] st src more h a b stay push = unfold layer in stay st h
layer-go_into P (x ∷ []) st src more h a b stay push =
    rw (layer-dot x (open_path st) src a) (elim (Bool-cases (x == dot)) [
      | inl t ↦ rw t (stay st h)
      | inr f ↦ rw (f, b) (push (λ e. cc e))
    ])
layer-go_into P (x ∷ y ∷ []) [] src more h a b stay push =
    rw (layer_two x y (open_path []) src a) (elim (Bool-cases ((x == dot) && (y == dot))) [
      | inl t ↦ rw t (stay [] h)
      | inr f ↦ rw (f, b) (push (λ e. cc e))
    ])
layer-go_into P (x ∷ y ∷ []) (c ∷ st) src more h a b stay push =
    rw (layer_two x y (open_path (c ∷ st)) src a) (elim (Bool-cases ((x == dot) && (y == dot))) [
      | inl t ↦ rw (t, not_root st c h.0, up st c h.0.1) (stay st h.1)
      | inr f ↦ rw (f, b) (push (λ e. cc e))
    ])
layer-go_into P (x ∷ y ∷ z ∷ l) st src more h a b stay push =
    rw (layer_more (length (x ∷ y ∷ z ∷ l)) (open_path st) src (omega arith), b) (push (λ e. cc e))
