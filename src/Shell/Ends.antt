-- ===== src/Shell/Ends.antt =====
-- The loops of kernel/src/shell/parse.c end, and what they return lies in the line.
use os_workbench.Base.{
  ℕ, zero, suc, ◌+◌, ◌≤◌, ◌<◌, ◌≡◌, true, false, List, [], ◌∷◌, ◌++◌, arith, ◌==◌, leb, length,
  Bool-cases, inl, inr, All,
}
use os_workbench.Base.Run.{Run, ok, fault, out_of_fuel}
use os_workbench.Shell.{
  Span, Redir, Cmd, exec, redir, pipe, seq, back, max_args, Token, at, skip, gettoken, peek,
  redirection, parseredirs, wrap, argument,
}
use os_workbench.Shell.Scan.{
  Holds, Holds-bind, Good, gettoken-Good, skip-lo, skip-hi, skip-skip, peek-seen,
}
use os_workbench.Shell.Parse.{rounds, parseargs}

-- A stretch of the line.
abbrev pub Word : List ℕ → Span → Type 0
Word s w = (w.0 ≤ w.1) × (w.1 ≤ length s)

abbrev pub Inside : List ℕ → Cmd → Type 0
Inside s (exec args) = All (Word s) args
Inside s (redir c r) = Inside s c × Word s r.file
Inside s (pipe c d) = Inside s c × Inside s d
Inside s (seq c d) = Inside s c × Inside s d
Inside s (back c) = Inside s c

-- A result whose words are in the line, with a pointer that has not gone back.
abbrev pub After : List ℕ → ℕ → Cmd × ℕ → Type 0
After s p r = Inside s r.0 × (p ≤ r.1) × (r.1 ≤ length s)

abbrev pub Redirs : List ℕ → List Redir → Type 0
Redirs s rs = All (λ r. Word s r.file) rs

abbrev pub Rest : List ℕ → ℕ → List Redir × ℕ → Type 0
Rest s p r = Redirs s r.0 × (p ≤ r.1) × (r.1 ≤ length s)

pub record Next (s : List ℕ) (p : ℕ) (t : Token) : Type 0 where
  pub past : p < t.rest
  pub rest_in : t.rest ≤ length s

pub Holds-map :
    {A : Type 0} (P Q : A → Type 0) (r : Run A) → ((a : A) → P a → Q a) → Holds P r → Holds Q r
Holds-map P Q (ok a) f h = f a h
Holds-map P Q fault f h = tt
Holds-map P Q out_of_fuel f h = h

-- Behind a `peek` that has seen something, `gettoken` goes on.
pub gettoken-Next :
    (s : List ℕ) (p : ℕ) (toks : List ℕ)
    → p ≤ length s
    → peek s p toks ≡ true
    → Holds (Next s p) (gettoken s (skip s p))
gettoken-Next s p toks h e =
    Holds-map (Good s (skip s p)) (Next s p) (gettoken s (skip s p))
      (λ t g.
        let nz : (at s (skip s (skip s p)) == 0) ≡ false =
          rw (skip-skip s p) (peek-seen s p toks e) in
        let some_byte = g.nonempty (g.seen nz) in
        record { past = omega (arith, some_byte, g.from, g.on, skip-lo s p); rest_in = g.rest_in })
      (gettoken-Good s (skip s p) (skip-hi s p h))

All-append :
    {A : Type 0} (P : A → Type 0) (xs : List A) (x : A) → All P xs → P x → All P (xs ++ (x ∷ []))
All-append P [] x h k = (k, tt)
All-append P (y ∷ xs) x h k = (h.0, All-append P xs x h.1 k)

redirection-file : (k : ℕ) (w : Span) → (redirection k w).file ≡ w
unfolding redirection
redirection-file k w = ground arith

pub parseredirs-Rest :
    (fuel : ℕ) (s : List ℕ) (rs : List Redir) (p : ℕ)
    → p ≤ length s
    → length s < fuel + p
    → Redirs s rs
    → Holds (Rest s p) (parseredirs fuel s rs p)
unfolding parseredirs
parseredirs-Rest zero s rs p h f a = absurd (omega arith)
parseredirs-Rest (suc fuel) s rs p h f a = elim (Bool-cases (peek s p (b'<' ∷ b'>' ∷ []))) [
  | inr e ↦ rw (e, parseredirs) (a, skip-lo s p, skip-hi s p h)
  | inl e ↦
      rw (e, parseredirs)
        (Holds-bind (Next s p) (Rest s p) (gettoken s (skip s p)) _
          (gettoken-Next s p (b'<' ∷ b'>' ∷ []) h e)
          (λ t n.
            Holds-bind (Good s t.rest) (Rest s p) (gettoken s t.rest) _
              (gettoken-Good s t.rest n.rest_in)
              (λ w g. elim (Bool-cases (w.kind == b'a')) [
                | inr k ↦ rw k tt
                | inl k ↦
                    let lo : p ≤ w.rest = omega (arith, n.past, g.from, g.order, g.on) in
                    let go : p < w.rest = omega (arith, n.past, g.from, g.order, g.on) in
                    let there : Word s (redirection t.kind (w.start, w.stop)).file =
                      rw (redirection-file t.kind (w.start, w.stop)) (g.order, g.stop_in) in
                    rw k (
                      Holds-map (Rest s w.rest) (Rest s p) (parseredirs fuel s _ w.rest)
                        (λ r x. (x.0, omega (arith, x.1), x.2))
                        (parseredirs-Rest fuel s _ w.rest g.rest_in (omega arith)
                          (All-append (λ r. Word s r.file) rs _ a there)))
              ])))
]

pub wrap-Inside :
    (s : List ℕ) (c : Cmd) (rs : List Redir) → Inside s c → Redirs s rs → Inside s (wrap c rs)
wrap-Inside s c [] h a = h
wrap-Inside s c (r ∷ rs) h a = wrap-Inside s (redir c r) rs (h, a.0) a.1

argument-Word : (s : List ℕ) (p : ℕ) (t : Token) → Good s p t → Holds (Word s) (argument t)
unfolding argument
argument-Word s p t g = elim (Bool-cases (t.kind == b'"')) [
  | inl e ↦ rw e (omega (arith, g.quoted e), omega (arith, g.stop_in))
  | inr e ↦ elim (Bool-cases (t.kind == b'a')) [
    | inl k ↦ rw (e, k) (g.order, g.stop_in)
    | inr k ↦ rw (e, k) tt
  ]
]

pub parseargs-After :
    (fuel : ℕ) (s : List ℕ) (args : List Span) (rs : List Redir) (p : ℕ)
    → p ≤ length s
    → length s < fuel + p
    → All (Word s) args
    → Redirs s rs
    → Holds (After s p) (parseargs fuel s args rs p)
unfolding parseargs
parseargs-After zero s args rs p h f a b = absurd (omega arith)
parseargs-After (suc fuel) s args rs p h f a b =
    elim (Bool-cases (peek s p (b'|' ∷ b')' ∷ b'&' ∷ b';' ∷ []))) [
      | inl e ↦ rw (e, parseargs) (wrap-Inside s (exec args) rs a b, skip-lo s p, skip-hi s p h)
      | inr e ↦
          rw (e, parseargs)
            (Holds-bind (Good s (skip s p)) (After s p) (gettoken s (skip s p)) _
              (gettoken-Good s (skip s p) (skip-hi s p h))
              (λ t g. elim (Bool-cases (t.kind == 0)) [
                | inl k ↦ rw k (
                  wrap-Inside s (exec args) rs a b,
                  omega (arith, skip-lo s p, g.from, g.order, g.on),
                  g.rest_in,
                )
                | inr k ↦
                    let go : p < t.rest = omega (arith, skip-lo s p, g.from, g.nonempty k, g.on) in
                    rw k (
                      Holds-bind (Word s) (After s p) (argument t) _
                        (argument-Word s (skip s p) t g)
                        (λ w i. elim (Bool-cases (leb max_args (length args + 1))) [
                          | inl m ↦ rw m tt
                          | inr m ↦ rw m (
                              Holds-bind (Rest s t.rest) (After s p)
                                (parseredirs (rounds s) s rs t.rest) _
                                (parseredirs-Rest (rounds s) s rs t.rest g.rest_in (omega arith) b)
                                (λ r x.
                                  Holds-map (After s r.1) (After s p)
                                    (parseargs fuel s (args ++ (w ∷ [])) r.0 r.1)
                                    (λ y z. (z.0, omega (arith, z.1, x.1), z.2))
                                    (parseargs-After fuel s (args ++ (w ∷ [])) r.0 r.1 x.2
                                      (omega (arith, x.1)) (All-append (Word s) args w a i) x.0)))
                        ]))
              ]))
    ]
