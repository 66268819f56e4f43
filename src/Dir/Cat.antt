-- ===== src/Dir/Cat.antt =====
-- What `dir_cat` and `to_absolute` of kernel/src/dir.c return.
use os_workbench.Base.{
  ℕ, zero, suc, ◌-◌, ◌<◌, ◌≡◌, refl, true, false, some, List, [], ◌∷◌, ◌++◌, arith, ltb,
  if◌then◌else◌, length, length-append, length-drop, take, drop, ap, ◌∙◌, Bool-cases, Option-cases,
  inl, inr,
}
use mathlib.Core.Path.{subst}
use mathlib.Core.List.{append_assoc, append-nil}
use native.Mathlib.Numerals.{add-one}
use os_workbench.Dir.{
  slash, get_first_slash, layer, dir_cat_loop, last, is_slash, ends_in_slash, strip,
  starts_with_slash, dir_cat, to_absolute,
}
use os_workbench.Dir.Split.{Layer, NoSlash, split, split_none, split_some, take-append}
use os_workbench.Dir.Walk.{
  Stack, go_into, walk, base, open_path, path, IsLayer, IsStack, go_into-IsStack, layer-go_into,
}

take-all : (s : List ℕ) → take (length s) s ≡ s
take-all [] = refl
take-all (c ∷ s) = ap (λ t. c ∷ t) (take-all s)

take-all_suc : (s : List ℕ) → take (suc (length s)) s ≡ s ++ []
take-all_suc [] = refl
take-all_suc (c ∷ s) = ap (λ t. c ∷ t) (take-all_suc s)

last-append : (c : ℕ) (s t : List ℕ) → last (s ++ (c ∷ t)) ≡ last (c ∷ t)
last-append c [] t = refl
last-append c (a ∷ []) t = refl
last-append c (a ∷ b ∷ s) t = last-append c (b ∷ s) t

ends-clean : (a : ℕ) (l : Layer) → NoSlash (a ∷ l) → ends_in_slash (a ∷ l) ≡ false
ends-clean a [] n = n.0
ends-clean a (b ∷ l) n = ends-clean b l n.1

ends-base : (st : Stack) (c : Layer) → IsLayer c → ends_in_slash (base (c ∷ st)) ≡ false
ends-base st [] h = absurd (h.0 refl)
ends-base st (a ∷ l) h = ap is_slash (last-append slash (base st) (a ∷ l)) ∙ ends-clean a l h.1

ends-open : (xs : List ℕ) → ends_in_slash (xs ++ (slash ∷ [])) ≡ true
ends-open xs = ap is_slash (last-append slash xs [])

strip-open : (st : Stack) → strip (open_path st) ≡ path st
unfolding strip
strip-open [] = refl
strip-open (c ∷ st) =
    let long : ltb 1 (length (open_path (c ∷ st))) ≡ true =
      ground
        (arith, length-append (base (c ∷ st)) (slash ∷ []), length-append (base st) (slash ∷ c)) in
    let less : length (open_path (c ∷ st)) - 1 ≡ length (base (c ∷ st)) =
      omega (arith, length-append (base (c ∷ st)) (slash ∷ [])) in
    rw (ends-open (base (c ∷ st)), long, less) (take-append (base (c ∷ st)) (slash ∷ []))

strip-pushed : (st : Stack) (c : Layer) → IsLayer c → strip (base (c ∷ st)) ≡ path (c ∷ st)
unfolding strip
strip-pushed st c h = rw (ends-base st c h) refl

joined : (st : Stack) (c more : List ℕ) → open_path st ++ (c ++ more) ≡ base (c ∷ st) ++ more
joined st c more = simp append_assoc

dir_cat_loop-walk :
    (fuel : ℕ) (st : Stack) (src : List ℕ)
    → IsStack st
    → length src < fuel
    → (d : List ℕ) × (dir_cat_loop fuel (open_path st) src ≡ some d)
      × (strip d ≡ path (walk (split src) st))
unfolding dir_cat_loop walk
dir_cat_loop-walk zero st src h f = absurd (omega arith)
dir_cat_loop-walk (suc fuel) st src h f = elim (Option-cases (get_first_slash src)) [
  | inl e ↦
      let (p, n) = split_none src e in
      (
        layer (length src) (open_path st) src,
        rw (e, dir_cat_loop) refl,
        rw p (
            layer-go_into (λ d s. strip d ≡ path s) src st src [] h (take-all src)
              (take-all_suc src) (λ s k. strip-open s)
              (λ ne. rw (joined st src [], append-nil) (strip-pushed st src (ne, n)))),
      )
  | inr (n, e) ↦
      let p = split_some src n e in
      let l = take n src in
      let q : layer n (open_path st) src ≡ open_path (go_into l st) =
        subst (λ k. layer k (open_path st) src ≡ open_path (go_into l st)) p.measured
          (layer-go_into (λ d s. d ≡ open_path s) l st src (slash ∷ []) h
            (ap (λ k. take k src) p.measured) (ap (λ k. take (suc k) src) p.measured ∙ p.ended)
            (λ s k. refl) (λ ne. joined st l (slash ∷ []))) in
      let r =
        dir_cat_loop-walk fuel (go_into l st) (drop (suc n) src) (go_into-IsStack l st p.clean h)
          (omega (arith, length-drop (suc n) src, p.within)) in
      (r.0, rw (e, dir_cat_loop, add-one, q) (r.1), rw p.layers (r.2))
]

-- Where a walk begins: at the root for an absolute path, else where we are.
abbrev pub origin : List ℕ → Stack → Stack
origin src st = if starts_with_slash src then [] else st

-- The path of a stack begins at the root.
first-base : (st : Stack) (l : Layer) → (t : List ℕ) × (base st ++ (slash ∷ l) ≡ slash ∷ t)
first-base [] l = (l, refl)
first-base (k ∷ st) l =
    let (t, e) = first-base st k in (t ++ (slash ∷ l), ap (λ x. x ++ (slash ∷ l)) e)

dir_cat-base :
    (st : Stack) (src : List ℕ)
    → IsStack st
    → (if starts_with_slash src
        then take 1 (path st)
        else if ends_in_slash (path st)
        then path st
        else path st ++ (slash ∷ []))
      ≡ open_path (origin src st)
dir_cat-base [] src h = ground arith
dir_cat-base (c ∷ st) src h = elim (Bool-cases (starts_with_slash src)) [
  | inl t ↦ rw t (ap (take 1) (first-base st c).1)
  | inr f ↦ rw (f, ends-base st c h.0) refl
]

starts-path : (st : Stack) → starts_with_slash (path st) ≡ true
starts-path [] = refl
starts-path (c ∷ st) = ap starts_with_slash (first-base st c).1

origin-IsStack : (src : List ℕ) (st : Stack) → IsStack st → IsStack (origin src st)
origin-IsStack src st h = elim (Bool-cases (starts_with_slash src)) [
  | inl t ↦ rw t tt
  | inr f ↦ rw f h
]

-- From the path of a stack of layers `dir_cat` ends without a failed `Assert` and gives the path of the
-- stack that the walk along the second path leads to: an empty layer and "." stay, ".." goes up and
-- stays at the root, any other layer goes down, and an absolute path starts from the root. There is no
-- slash at the end but the root's.
pub dir_cat-walk :
    (st : Stack) (src : List ℕ)
    → IsStack st
    → dir_cat (path st) src ≡ some (path (walk (split src) (origin src st)))
unfolding dir_cat
dir_cat-walk st src h =
    let r =
      dir_cat_loop-walk (suc (length src)) (origin src st) src (origin-IsStack src st h)
        (omega arith) in
    rw (starts-path st, dir_cat-base st src h, r.1) (ap some r.2)

-- `to_absolute` of a relative path is the walk from the working directory; an absolute path stays as it
-- is written.
pub to_absolute-walk :
    (st : Stack) (rela : List ℕ)
    → IsStack st
    → to_absolute (path st) rela
      ≡ some (if starts_with_slash rela then rela else path (walk (split rela) st))
unfolding to_absolute
to_absolute-walk st rela h = elim (Bool-cases (starts_with_slash rela)) [
  | inl t ↦ rw t refl
  | inr f ↦ rw (f, dir_cat-walk st rela h, f) refl
]
