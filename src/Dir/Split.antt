-- ===== src/Dir/Split.antt =====
-- A path as its layers, and where kernel/src/dir.c finds the slashes.
use os_workbench.Base.{
  ℕ, suc, ◌<◌, ◌≡◌, refl, true, false, none, some, List, [], ◌∷◌, ◌++◌, arith, ◌==◌, if◌then◌else◌,
  length, take, drop, All, ap, Bool-cases, Option-cases, inl, inr, ==→eq,
}
use mathlib.Core.Path.{subst}
use native.Mathlib.Nat.{add-zero}
use native.Mathlib.Numerals.{add-one}
use os_workbench.Dir.{slash, get_first_slash, get_last_slash, cut_at}

abbrev pub Layer : Type 0
Layer = List ℕ

abbrev pub NoSlash : Layer → Type 0
NoSlash c = All (λ b. (b == slash) ≡ false) c

abbrev pub push_front : ℕ → List Layer → List Layer
push_front c [] = (c ∷ []) ∷ []
push_front c (l ∷ ls) = (c ∷ l) ∷ ls

-- The layers between the slashes, empty ones included.
unfoldable pub split : List ℕ → List Layer
split [] = [] ∷ []
split (c ∷ s) = if c == slash then [] ∷ split s else push_front c (split s)

-- Without a slash a path is one layer.
pub split_none : (s : List ℕ) → get_first_slash s ≡ none → (split s ≡ s ∷ []) × NoSlash s
unfolding split get_first_slash
split_none [] e = (refl, tt)
split_none (c ∷ s) e = elim (Bool-cases (c == slash)) [
  | inl t ↦ absurd (ground (arith, t))
  | inr f ↦ elim (Option-cases (get_first_slash s)) [
    | inl n ↦ let (p, q) = split_none s n in (rw (f, p) refl, (f, q))
    | inr (i, n) ↦ absurd (ground (arith, f, n))
  ]
]

-- What a slash at `n` says of a path.
pub record SlashAt (s : List ℕ) (n : ℕ) : Type 0 where
  pub layers : split s ≡ take n s ∷ split (drop (suc n) s)
  pub clean : NoSlash (take n s)
  pub ended : take (suc n) s ≡ take n s ++ (slash ∷ [])
  pub within : n < length s
  pub measured : length (take n s) ≡ n

SlashAt-zero : (c : ℕ) (s : List ℕ) → (c == slash) ≡ true → SlashAt (c ∷ s) 0
unfolding split
SlashAt-zero c s t = record {
  layers = rw t refl;
  clean = tt;
  ended = ap (λ x. x ∷ []) (==→eq c slash t);
  within = omega arith;
  measured = refl;
}

SlashAt-suc : (c i : ℕ) (s : List ℕ) → (c == slash) ≡ false → SlashAt s i → SlashAt (c ∷ s) (suc i)
unfolding split
SlashAt-suc c i s f r = record {
  layers = rw (f, r.layers) refl;
  clean = (f, r.clean);
  ended = ap (λ t. c ∷ t) r.ended;
  within = omega (arith, r.within);
  measured = ap suc r.measured;
}

-- Otherwise the first slash ends the first layer.
pub split_some : (s : List ℕ) (n : ℕ) → get_first_slash s ≡ some n → SlashAt s n
unfolding get_first_slash
split_some [] n e = absurd (cc e)
split_some (c ∷ s) n e = elim (Bool-cases (c == slash)) [
  | inl t ↦ let q : 0 ≡ n = ground (arith, t) in subst (SlashAt (c ∷ s)) q (SlashAt-zero c s t)
  | inr f ↦ elim (Option-cases (get_first_slash s)) [
    | inl m ↦ absurd (ground (arith, f, m))
    | inr (i, m) ↦
        let q : suc i ≡ n = ground (arith, f, m) in
        subst (SlashAt (c ∷ s)) q (SlashAt-suc c i s f (split_some s i m))
  ]
]

get_last_slash-none : (c : Layer) → NoSlash c → get_last_slash c ≡ none
unfolding get_last_slash
get_last_slash-none [] h = refl
get_last_slash-none (b ∷ c) h = ground (arith, get_last_slash-none c h.1)

-- The last slash is the one before the last layer.
pub get_last_slash-append :
    (xs : List ℕ) (c : Layer) → NoSlash c → get_last_slash (xs ++ (slash ∷ c)) ≡ some (length xs)
unfolding get_last_slash
get_last_slash-append [] c h = ground (arith, get_last_slash-none c h)
get_last_slash-append (x ∷ xs) c h = ground (arith, get_last_slash-append xs c h)

pub take-append : (xs ys : List ℕ) → take (length xs) (xs ++ ys) ≡ xs
take-append [] ys = refl
take-append (x ∷ xs) ys = ap (λ t. x ∷ t) (take-append xs ys)

pub take-append_suc :
    (y : ℕ) (xs ys : List ℕ) → take (suc (length xs)) (xs ++ (y ∷ ys)) ≡ xs ++ (y ∷ [])
take-append_suc y [] ys = refl
take-append_suc y (x ∷ xs) ys = ap (λ t. x ∷ t) (take-append_suc y xs ys)

-- Cutting at the last slash, with the slash or without it.
pub cut_at_zero : (xs : List ℕ) (c : Layer) → NoSlash c → cut_at 0 (xs ++ (slash ∷ c)) ≡ xs
unfolding cut_at
cut_at_zero xs c h =
    rw (get_last_slash-append xs c h, cut_at, add-zero) (take-append xs (slash ∷ c))

pub cut_at_one :
    (xs : List ℕ) (c : Layer) → NoSlash c → cut_at 1 (xs ++ (slash ∷ c)) ≡ xs ++ (slash ∷ [])
unfolding cut_at
cut_at_one xs c h = rw (get_last_slash-append xs c h, cut_at, add-one) (take-append_suc slash xs c)
