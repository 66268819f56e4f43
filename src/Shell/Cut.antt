-- ===== src/Shell/Cut.antt =====
-- What `parsecmd` of kernel/src/shell/parse.c leaves: a command whose words are cut in the buffer.
use os_workbench.Base.{
  ℕ, suc, ◌<◌, ◌≡◌, refl, some, List, [], ◌∷◌, ◌++◌, arith, ◌==◌, length, length-append, length-set,
  set, get_elem?, get_elem?-set_self, get_elem?-set_ne, Bool-cases, inl, inr, ◌∙◌, ap, All, ==→eq,
  ==→ne,
}
use os_workbench.Shell.{Span, Cmd, exec, redir, pipe, seq, back, skip}
use os_workbench.Shell.Scan.{Holds, Holds-bind}
use os_workbench.Shell.Parse.{rounds, parseline, cut_words, nulterminate, parsecmd}
use os_workbench.Shell.Ends.{Word, Inside, After}
use os_workbench.Shell.Total.{parseline-After}

-- The buffer holds a NUL at the end of a word.
abbrev Ended : List ℕ → Span → Type 0
Ended m w = get_elem? m w.1 ≡ some 0

-- At the end of every word of the command.
abbrev pub Cut : List ℕ → Cmd → Type 0
Cut m (exec args) = All (Ended m) args
Cut m (redir c r) = Cut m c × Ended m r.file
Cut m (pipe c d) = Cut m c × Cut m d
Cut m (seq c d) = Cut m c × Cut m d
Cut m (back c) = Cut m c

set-keeps :
    (m : List ℕ) (i j : ℕ)
    → get_elem? m j ≡ some 0
    → i < length m
    → get_elem? (set m i 0) j ≡ some 0
set-keeps m i j e h = elim (Bool-cases (j == i)) [
  | inl t ↦ ap (get_elem? (set m i 0)) (==→eq j i t) ∙ get_elem?-set_self m i 0 h
  | inr f ↦ get_elem?-set_ne m i j 0 (omega (arith, ==→ne j i f)) ∙ e
]

cut_words-keeps :
    (s m : List ℕ) (j : ℕ) (ws : List Span)
    → length m ≡ suc (length s)
    → All (Word s) ws
    → get_elem? m j ≡ some 0
    → get_elem? (cut_words ws m) j ≡ some 0
cut_words-keeps s m j [] l a e = e
cut_words-keeps s m j (w ∷ ws) l a e =
    cut_words-keeps s (set m w.1 0) j ws (length-set m w.1 0 ∙ l) a.1
      (set-keeps m w.1 j e (omega (arith, a.0.1)))

length-cut_words : (ws : List Span) (m : List ℕ) → length (cut_words ws m) ≡ length m
length-cut_words [] m = refl
length-cut_words (w ∷ ws) m = length-cut_words ws (set m w.1 0) ∙ length-set m w.1 0

pub length-nulterminate : (c : Cmd) (m : List ℕ) → length (nulterminate c m) ≡ length m
unfolding nulterminate
length-nulterminate (exec args) m = length-cut_words args m
length-nulterminate (redir c r) m =
    length-set (nulterminate c m) r.file.1 0 ∙ length-nulterminate c m
length-nulterminate (pipe c d) m =
    length-nulterminate d (nulterminate c m) ∙ length-nulterminate c m
length-nulterminate (seq c d) m = length-nulterminate d (nulterminate c m) ∙ length-nulterminate c m
length-nulterminate (back c) m = length-nulterminate c m

nulterminate-keeps :
    (s m : List ℕ) (j : ℕ) (c : Cmd)
    → length m ≡ suc (length s)
    → Inside s c
    → get_elem? m j ≡ some 0
    → get_elem? (nulterminate c m) j ≡ some 0
unfolding nulterminate
nulterminate-keeps s m j (exec args) l i e = cut_words-keeps s m j args l i e
nulterminate-keeps s m j (redir c r) l i e =
    set-keeps (nulterminate c m) r.file.1 j (nulterminate-keeps s m j c l i.0 e)
      (omega (arith, length-nulterminate c m, i.1.1))
nulterminate-keeps s m j (pipe c d) l i e =
    nulterminate-keeps s (nulterminate c m) j d (length-nulterminate c m ∙ l) i.1
      (nulterminate-keeps s m j c l i.0 e)
nulterminate-keeps s m j (seq c d) l i e =
    nulterminate-keeps s (nulterminate c m) j d (length-nulterminate c m ∙ l) i.1
      (nulterminate-keeps s m j c l i.0 e)
nulterminate-keeps s m j (back c) l i e = nulterminate-keeps s m j c l i e

-- Where no NUL goes, the ends of the words stay.
abbrev Keeps : List ℕ → List ℕ → Type 0
Keeps m m' = (j : ℕ) → get_elem? m j ≡ some 0 → get_elem? m' j ≡ some 0

All-Keeps : (m m' : List ℕ) (ws : List Span) → Keeps m m' → All (Ended m) ws → All (Ended m') ws
All-Keeps m m' [] k a = tt
All-Keeps m m' (w ∷ ws) k a = (k w.1 a.0, All-Keeps m m' ws k a.1)

Cut-Keeps : (m m' : List ℕ) (c : Cmd) → Keeps m m' → Cut m c → Cut m' c
Cut-Keeps m m' (exec args) k a = All-Keeps m m' args k a
Cut-Keeps m m' (redir c r) k a = (Cut-Keeps m m' c k a.0, k r.file.1 a.1)
Cut-Keeps m m' (pipe c d) k a = (Cut-Keeps m m' c k a.0, Cut-Keeps m m' d k a.1)
Cut-Keeps m m' (seq c d) k a = (Cut-Keeps m m' c k a.0, Cut-Keeps m m' d k a.1)
Cut-Keeps m m' (back c) k a = Cut-Keeps m m' c k a

cut_words-Ended :
    (s m : List ℕ) (ws : List Span)
    → length m ≡ suc (length s)
    → All (Word s) ws
    → All (Ended (cut_words ws m)) ws
cut_words-Ended s m [] l a = tt
cut_words-Ended s m (w ∷ ws) l a =
    let l' = length-set m w.1 0 ∙ l in
    (
      cut_words-keeps s (set m w.1 0) w.1 ws l' a.1
          (get_elem?-set_self m w.1 0 (omega (arith, a.0.1))),
      cut_words-Ended s (set m w.1 0) ws l' a.1,
    )

-- For a command whose words lie in the line, every write of `nulterminate` falls in the buffer, and
-- when it is done every word has its NUL.
pub nulterminate-Cut :
    (s m : List ℕ) (c : Cmd) → length m ≡ suc (length s) → Inside s c → Cut (nulterminate c m) c
unfolding nulterminate
nulterminate-Cut s m (exec args) l i = cut_words-Ended s m args l i
nulterminate-Cut s m (redir c r) l i =
    let h : r.file.1 < length (nulterminate c m) = omega (arith, length-nulterminate c m, i.1.1) in
    (
      Cut-Keeps (nulterminate c m) (set (nulterminate c m) r.file.1 0) c
          (λ j e. set-keeps (nulterminate c m) r.file.1 j e h) (nulterminate-Cut s m c l i.0),
      get_elem?-set_self (nulterminate c m) r.file.1 0 h,
    )
nulterminate-Cut s m (pipe c d) l i =
    let l' = length-nulterminate c m ∙ l in
    (
      Cut-Keeps (nulterminate c m) (nulterminate d (nulterminate c m)) c
          (λ j e. nulterminate-keeps s (nulterminate c m) j d l' i.1 e)
          (nulterminate-Cut s m c l i.0),
      nulterminate-Cut s (nulterminate c m) d l' i.1,
    )
nulterminate-Cut s m (seq c d) l i =
    let l' = length-nulterminate c m ∙ l in
    (
      Cut-Keeps (nulterminate c m) (nulterminate d (nulterminate c m)) c
          (λ j e. nulterminate-keeps s (nulterminate c m) j d l' i.1 e)
          (nulterminate-Cut s m c l i.0),
      nulterminate-Cut s (nulterminate c m) d l' i.1,
    )
nulterminate-Cut s m (back c) l i = nulterminate-Cut s m c l i

-- Its words are stretches of the line, and are cut in the buffer, which has the line's length and NUL.
abbrev pub Complete : List ℕ → Cmd × List ℕ → Type 0
Complete s r = Inside s r.0 × Cut r.1 r.0 × (length r.1 ≡ suc (length s))

-- `parsecmd` ends on every line: it panics, or returns a command of which every word and file name is
-- a stretch of the line with a NUL behind it in the buffer, and the buffer has kept its length.
pub parsecmd-Complete : (s : List ℕ) → Holds (Complete s) (parsecmd s)
unfolding parsecmd
parsecmd-Complete s =
    Holds-bind (After s 0) (Complete s) (parseline (rounds s) s 0) _
      (parseline-After (rounds s) s 0 (omega arith) (omega arith))
      (λ c a. elim (Bool-cases (skip s c.1 == length s)) [
        | inr e ↦ rw e tt
        | inl e ↦
            let l : length (s ++ (0 ∷ [])) ≡ suc (length s) =
              omega (arith, length-append s (0 ∷ [])) in
            rw e (
              a.0,
              nulterminate-Cut s (s ++ (0 ∷ [])) c.0 l a.0,
              length-nulterminate c.0 (s ++ (0 ∷ [])) ∙ l,
            )
      ])
