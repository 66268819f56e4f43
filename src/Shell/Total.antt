-- ===== src/Shell/Total.antt =====
-- The recursive descent of kernel/src/shell/parse.c ends, and what it returns lies in the line.
use os_workbench.Base.{
  ℕ, zero, suc, ◌+◌, ◌≤◌, ◌<◌, List, [], ◌∷◌, arith, length, Bool-cases, inl, inr,
}
use os_workbench.Shell.{Cmd, back, skip, gettoken, peek, parseredirs}
use os_workbench.Shell.Scan.{Holds, Holds-bind, skip-lo, skip-hi}
use os_workbench.Shell.Parse.{
  rounds, Parsed, parseargs, parseblock, parseexec, parsepipe, parseback, parseline,
}
use os_workbench.Shell.Ends.{
  Inside, After, Rest, Next, Holds-map, gettoken-Next, parseredirs-Rest, wrap-Inside,
  parseargs-After,
}

-- From a later place to an earlier one.
After-back : (s : List ℕ) (p q : ℕ) (r : Parsed) → p ≤ q → Holds (After s q) r → Holds (After s p) r
After-back s p q r h = Holds-map (After s q) (After s p) r (λ x y. (y.0, omega (arith, y.1), y.2))

-- The parser of a line inside parentheses, from behind `p` on.
abbrev Line : List ℕ → ℕ → (ℕ → Parsed) → Type 0
Line s p line = (q : ℕ) → p < q → q ≤ length s → Holds (After s q) (line q)

parseblock-After :
    (line : ℕ → Parsed) (s : List ℕ) (p : ℕ)
    → p ≤ length s
    → Line s p line
    → Holds (After s p) (parseblock line s p)
unfolding parseblock
parseblock-After line s p h l = elim (Bool-cases (peek s p (b'(' ∷ []))) [
  | inr e ↦ rw (e, parseblock) tt
  | inl e ↦
      rw (e, parseblock)
        (Holds-bind (Next s p) (After s p) (gettoken s (skip s p)) _
          (gettoken-Next s p (b'(' ∷ []) h e)
          (λ t n.
            Holds-bind (After s t.rest) (After s p) (line t.rest) _ (l t.rest n.past n.rest_in)
              (λ c a. elim (Bool-cases (peek s c.1 (b')' ∷ []))) [
                | inr k ↦ rw k tt
                | inl k ↦ rw k (
                    Holds-bind (Next s c.1) (After s p) (gettoken s (skip s c.1)) _
                      (gettoken-Next s c.1 (b')' ∷ []) a.2 k)
                      (λ u m.
                        Holds-bind (Rest s u.rest) (After s p) (parseredirs (rounds s) s [] u.rest)
                          _ (parseredirs-Rest (rounds s) s [] u.rest m.rest_in (omega arith) tt)
                          (λ r x. (
                            wrap-Inside s c.0 r.0 a.0 x.0,
                            omega (arith, n.past, a.1, m.past, x.1),
                            x.2,
                          ))))
              ])))
]

parseexec-After :
    (line : ℕ → Parsed) (s : List ℕ) (p : ℕ)
    → p ≤ length s
    → Line s p line
    → Holds (After s p) (parseexec line s p)
unfolding parseexec
parseexec-After line s p h l = elim (Bool-cases (peek s p (b'(' ∷ []))) [
  | inl e ↦
      rw (e, parseexec)
        (After-back s p (skip s p) (parseblock line s (skip s p)) (skip-lo s p) (
          parseblock-After line s (skip s p) (skip-hi s p h)
            (λ q a b. l q (omega (arith, skip-lo s p)) b)))
  | inr e ↦
      rw (e, parseexec)
        (Holds-bind (Rest s (skip s p)) (After s p) (parseredirs (rounds s) s [] (skip s p)) _
          (parseredirs-Rest (rounds s) s [] (skip s p) (skip-hi s p h) (omega arith) tt)
          (λ r x.
            After-back s p r.1 (parseargs (rounds s) s [] r.0 r.1) (omega (arith, skip-lo s p, x.1))
              (parseargs-After (rounds s) s [] r.0 r.1 x.2 (omega arith) tt x.0)))
]

parsepipe-After :
    (fuel : ℕ) (line : ℕ → Parsed) (s : List ℕ) (p : ℕ)
    → p ≤ length s
    → length s < fuel + p
    → Line s p line
    → Holds (After s p) (parsepipe fuel line s p)
unfolding parsepipe
parsepipe-After zero line s p h f l = absurd (omega arith)
parsepipe-After (suc fuel) line s p h f l =
    Holds-bind (After s p) (After s p) (parseexec line s p) _ (parseexec-After line s p h l) (λ c a.
      elim (Bool-cases (peek s c.1 (b'|' ∷ []))) [
        | inr e ↦ rw e (a.0, omega (arith, a.1, skip-lo s c.1), skip-hi s c.1 a.2)
        | inl e ↦ rw e (
            Holds-bind (Next s c.1) (After s p) (gettoken s (skip s c.1)) _
              (gettoken-Next s c.1 (b'|' ∷ []) a.2 e)
              (λ t n.
                Holds-bind (After s t.rest) (After s p) (parsepipe fuel line s t.rest) _
                  (parsepipe-After fuel line s t.rest n.rest_in (omega (arith, a.1, n.past))
                    (λ q x y. l q (omega (arith, a.1, n.past)) y))
                  (λ d b. ((a.0, b.0), omega (arith, a.1, n.past, b.1), b.2))))
      ])

parseback-After :
    (fuel : ℕ) (s : List ℕ) (c : Cmd) (p : ℕ)
    → p ≤ length s
    → length s < fuel + p
    → Inside s c
    → Holds (After s p) (parseback fuel s c p)
unfolding parseback
parseback-After zero s c p h f i = absurd (omega arith)
parseback-After (suc fuel) s c p h f i = elim (Bool-cases (peek s p (b'&' ∷ []))) [
  | inr e ↦ rw (e, parseback) (i, skip-lo s p, skip-hi s p h)
  | inl e ↦
      rw (e, parseback)
        (Holds-bind (Next s p) (After s p) (gettoken s (skip s p)) _
          (gettoken-Next s p (b'&' ∷ []) h e)
          (λ t n.
            After-back s p t.rest (parseback fuel s (back c) t.rest) (omega (arith, n.past))
              (parseback-After fuel s (back c) t.rest n.rest_in (omega (arith, n.past)) i)))
]

-- With more rounds than the bytes that are left, `parseline` from a place in the line panics or ends
-- with a command: its words are stretches of the line, and the pointer has not gone back.
pub parseline-After :
    (fuel : ℕ) (s : List ℕ) (p : ℕ)
    → p ≤ length s
    → length s < fuel + p
    → Holds (After s p) (parseline fuel s p)
unfolding parseline
parseline-After zero s p h f = absurd (omega arith)
parseline-After (suc fuel) s p h f =
    Holds-bind (After s p) (After s p) (parsepipe (rounds s) (parseline fuel s) s p) _
      (parsepipe-After (rounds s) (parseline fuel s) s p h (omega arith)
        (λ q x y. parseline-After fuel s q y (omega arith)))
      (λ c a.
        Holds-bind (After s c.1) (After s p) (parseback (rounds s) s c.0 c.1) _
          (parseback-After (rounds s) s c.0 c.1 a.2 (omega arith) a.0)
          (λ d b. elim (Bool-cases (peek s d.1 (b';' ∷ []))) [
            | inr e ↦ rw e (b.0, omega (arith, a.1, b.1, skip-lo s d.1), skip-hi s d.1 b.2)
            | inl e ↦ rw e (
                Holds-bind (Next s d.1) (After s p) (gettoken s (skip s d.1)) _
                  (gettoken-Next s d.1 (b';' ∷ []) b.2 e)
                  (λ t n.
                    Holds-bind (After s t.rest) (After s p) (parseline fuel s t.rest) _
                      (parseline-After fuel s t.rest n.rest_in (omega (arith, a.1, b.1, n.past)))
                      (λ r x. ((b.0, x.0), omega (arith, a.1, b.1, n.past, x.1), x.2))))
          ]))
