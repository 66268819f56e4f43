-- ===== src/Shell/Scan.antt =====
-- The scans of kernel/src/shell/parse.c stay in the line and go forward, and what a token is.
use os_workbench.Base.{
  ℕ, zero, suc, ◌+◌, ◌≤◌, ◌<◌, ◌≡◌, refl, Bool, true, false, ◌&&◌, ◌||◌, not, List, [], ◌∷◌, arith,
  ◌==◌, ltb, length, Bool-cases, inl, inr,
}
use os_workbench.Base.Run.{Run, ok, fault, out_of_fuel, ◌>>=◌}
use os_workbench.Shell.{
  has, whitespace, symbols, singles, at, skip_loop, skip, word_loop, quote_loop, Token, token,
  gettoken, peek,
}

-- The run ends, and its result, if it has one, is good.
abbrev pub Holds : {A : Type 0} → (A → Type 0) → Run A → Type 0
Holds P (ok a) = P a
Holds P fault = Unit
Holds P out_of_fuel = ⊥

pub Holds-bind :
    {A B : Type 0} (P : A → Type 0) (Q : B → Type 0) (r : Run A) (k : A → Run B)
    → Holds P r
    → ((a : A) → P a → Holds Q (k a))
    → Holds Q (r >>= k)
Holds-bind P Q (ok a) k h f = f a h
Holds-bind P Q fault k h f = tt
Holds-bind P Q out_of_fuel k h f = h

at-lt : (s : List ℕ) (p : ℕ) → (at s p == 0) ≡ false → p < length s
at-lt [] p e = absurd (ground arith)
at-lt (c ∷ s) zero e = omega arith
at-lt (c ∷ s) (suc p) e = omega (arith, at-lt s p e)

skip_loop-lo : (fuel : ℕ) (s : List ℕ) (p : ℕ) → p ≤ skip_loop fuel s p
unfolding skip_loop
skip_loop-lo zero s p = omega arith
skip_loop-lo (suc fuel) s p = ground (arith, skip_loop-lo fuel s (p + 1))

skip_loop-hi : (fuel : ℕ) (s : List ℕ) (p : ℕ) → p ≤ length s → skip_loop fuel s p ≤ length s
unfolding skip_loop
skip_loop-hi zero s p h = h
skip_loop-hi (suc fuel) s p h = ground (arith, skip_loop-hi fuel s (p + 1))

abbrev pub blank_at : List ℕ → ℕ → Bool
blank_at s p = ltb p (length s) && has (at s p) whitespace

skip_loop-stop :
    (fuel : ℕ) (s : List ℕ) (p : ℕ) → length s ≤ fuel + p → blank_at s (skip_loop fuel s p) ≡ false
unfolding skip_loop
skip_loop-stop zero s p h = ground arith
skip_loop-stop (suc fuel) s p h = elim (Bool-cases (blank_at s p)) [
  | inl t ↦ rw t (skip_loop-stop fuel s (p + 1) (omega arith))
  | inr f ↦ rw f f
]

skip_loop-stay : (fuel : ℕ) (s : List ℕ) (p : ℕ) → blank_at s p ≡ false → skip_loop fuel s p ≡ p
unfolding skip_loop
skip_loop-stay zero s p f = refl
skip_loop-stay (suc fuel) s p f = rw f refl

pub skip-lo : (s : List ℕ) (p : ℕ) → p ≤ skip s p
unfolding skip
skip-lo s p = skip_loop-lo (length s) s p

pub skip-hi : (s : List ℕ) (p : ℕ) → p ≤ length s → skip s p ≤ length s
unfolding skip
skip-hi s p h = skip_loop-hi (length s) s p h

pub skip-stop : (s : List ℕ) (p : ℕ) → blank_at s (skip s p) ≡ false
unfolding skip
skip-stop s p = skip_loop-stop (length s) s p (omega arith)

-- A second skip goes nowhere.
pub skip-skip : (s : List ℕ) (p : ℕ) → skip s (skip s p) ≡ skip s p
unfolding skip
skip-skip s p = skip_loop-stay (length s) s (skip s p) (skip-stop s p)

word_loop-lo : (fuel : ℕ) (s : List ℕ) (p : ℕ) → p ≤ word_loop fuel s p
unfolding word_loop
word_loop-lo zero s p = omega arith
word_loop-lo (suc fuel) s p = ground (arith, word_loop-lo fuel s (p + 1))

word_loop-hi : (fuel : ℕ) (s : List ℕ) (p : ℕ) → p ≤ length s → word_loop fuel s p ≤ length s
unfolding word_loop
word_loop-hi zero s p h = h
word_loop-hi (suc fuel) s p h = ground (arith, word_loop-hi fuel s (p + 1))

-- A word that begins with a byte of a word is not empty.
word_loop-go :
    (fuel : ℕ) (s : List ℕ) (p : ℕ)
    → 0 < fuel
    → (ltb p (length s) && (not (has (at s p) whitespace) && not (has (at s p) symbols))) ≡ true
    → p < word_loop fuel s p
unfolding word_loop
word_loop-go zero s p h e = absurd (omega arith)
word_loop-go (suc fuel) s p h e = rw e (omega (arith, word_loop-lo fuel s (p + 1)))

quote_loop-lo : (fuel : ℕ) (s : List ℕ) (m p : ℕ) → 0 < fuel → p < quote_loop fuel s m p
unfolding quote_loop
quote_loop-lo zero s m p h = absurd (omega arith)
quote_loop-lo (suc zero) s m p h = ground arith
quote_loop-lo (suc (suc fuel)) s m p h = ground (arith, quote_loop-lo (suc fuel) s m (p + 1))

-- What `gettoken` says of a token that it finds from `p` on.
pub record Good (s : List ℕ) (p : ℕ) (t : Token) : Type 0 where
  pub from : p ≤ t.start
  pub order : t.start ≤ t.stop
  pub stop_in : t.stop ≤ length s
  pub on : t.stop ≤ t.rest
  pub rest_in : t.rest ≤ length s
  pub nonempty : (t.kind == 0) ≡ false → t.start < t.stop
  pub seen : (at s (skip s p) == 0) ≡ false → (t.kind == 0) ≡ false
  pub quoted : (t.kind == b'"') ≡ true → t.start + 2 ≤ t.stop

token-Good :
    (s : List ℕ) (p k e : ℕ)
    → skip s p ≤ e
    → e ≤ length s
    → ((k == 0) ≡ false → skip s p < e)
    → ((at s (skip s p) == 0) ≡ false → (k == 0) ≡ false)
    → ((k == b'"') ≡ true → skip s p + 2 ≤ e)
    → Good s p (token s k (skip s p) e)
unfolding token
token-Good s p k e a b c d f = record {
  from = skip-lo s p;
  order = a;
  stop_in = b;
  on = skip-lo s e;
  rest_in = skip-hi s e b;
  nonempty = c;
  seen = d;
  quoted = f;
}

-- The last case of `gettoken`: the byte begins a word.
word-starts : (c : ℕ) → (has c singles) ≡ false → (c == b'>') ≡ false → has c symbols ≡ false
word-starts c e f = ground (arith, e, f)

-- From a place in the line `gettoken` panics or finds a token of the line, and goes on behind it.
pub gettoken-Good : (s : List ℕ) (p : ℕ) → p ≤ length s → Holds (Good s p) (gettoken s p)
unfolding gettoken
gettoken-Good s p h = elim (Bool-cases (c == b'"' || c == 39)) [
  | inl t ↦ elim (Bool-cases (at s (quote_loop (length s) s c q) == 0)) [
    | inl z ↦ rw (t, z) tt
    | inr z ↦
        let lt = at-lt s q (ground (arith, t)) in
        let e = quote_loop-lo (length s) s c q (omega arith) in
        let lt' = at-lt s (quote_loop (length s) s c q) z in
        rw (t, z)
          (token-Good s p b'"' (quote_loop (length s) s c q + 1) (omega arith) (omega arith)
            (λ _. omega arith) (λ _. refl) (λ _. omega arith))
  ]
  | inr f ↦ elim (Bool-cases (c == 0)) [
    | inl t ↦
        rw (f, t)
          (token-Good s p 0 q (omega arith) (skip-hi s p h) (λ e. cc e) (λ e. cc (e, t))
            (λ e. cc e))
    | inr nz ↦ elim (Bool-cases (has c singles)) [
      | inl t ↦
          rw (f, nz, t)
            (token-Good s p c (q + 1) (omega arith) (omega (arith, at-lt s q nz)) (λ _. omega arith)
              (λ _. nz) (λ e. absurd (ground (arith, e, f))))
      | inr ns ↦ elim (Bool-cases (c == b'>')) [
        | inl t ↦ elim (Bool-cases (at s (q + 1) == b'>')) [
          | inl u ↦
              let lt = at-lt s (q + 1) (ground (arith, u)) in
              rw (f, nz, ns, t, u)
                (token-Good s p b'+' (q + 2) (omega arith) (omega arith) (λ _. omega arith)
                  (λ _. refl) (λ e. cc e))
          | inr u ↦
              rw (f, nz, ns, t, u)
                (token-Good s p b'>' (q + 1) (omega arith) (omega (arith, at-lt s q nz))
                  (λ _. omega arith) (λ _. refl) (λ e. cc e))
        ]
        | inr u ↦
            let lt = at-lt s q nz in
            let go =
              word_loop-go (length s) s q (omega arith)
                (ground (arith, word-starts c ns u, skip-stop s p)) in
            rw (f, nz, ns, u)
              (token-Good s p b'a' (word_loop (length s) s q) (omega arith)
                (word_loop-hi (length s) s q (omega arith)) (λ _. go) (λ _. refl) (λ e. cc e))
      ]
    ]
  ]
]
  where
    q : ℕ
    q = skip s p

    c : ℕ
    c = at s q

-- Where `peek` sees a byte of its set, the next token is not the end.
pub peek-seen :
    (s : List ℕ) (p : ℕ) (toks : List ℕ) → peek s p toks ≡ true → (at s (skip s p) == 0) ≡ false
unfolding peek
peek-seen s p toks e = ground (arith, e)
