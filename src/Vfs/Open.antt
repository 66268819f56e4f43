-- ===== src/Vfs/Open.antt =====
-- What opening a file and making a pipe do to the counts of open files, and which descriptor they take.
use os_workbench.Base.{
  ℕ, zero, suc, ◌+◌, ◌≤◌, ◌<◌, ◌≡◌, refl, sym, ap, ◌∙◌, ◌≢◌, ◌↔◌, inl, inr, true, false, Option,
  none, some, List, ◌==◌, update, arith, Option-cases, Bool-cases, ltb, ltb→lt, ltb→le, ==→eq,
  ==→ne,
}
use mathlib.Core.Option.{some-injective}
use os_workbench.Dir.{starts_with_slash}
use os_workbench.Vfs.{
  Inode, blk, dev, proc, pipe_end, Files, Vfile, Find, fd_num, set_fd, free_from, new_fd_num, iopen,
  opened, open_found, vfs_open, vfs_lookup,
}
use os_workbench.Vfs.Task.{pipe_file, end_file, with_end}
use os_workbench.Vfs.Count.{refs}
use os_workbench.Vfs.Inv.{
  is_pipe, Held, Within, Held-write, points_self, points_ne, NoPipes, NoPipes-update, Keeps,
}

-- The lowest free descriptor.
abbrev pub IsLowest : (ℕ → Option ℕ) → ℕ → Type 0
IsLowest fd i = (i < fd_num) × (fd i ≡ none) × ((j : ℕ) → j < i → fd j ≢ none)

free_from-some :
    (fd : ℕ → Option ℕ) (n i k : ℕ)
    → free_from fd n i ≡ some k
    → (i ≤ k) × (k < i + n) × (fd k ≡ none) × ((j : ℕ) → i ≤ j → j < k → fd j ≢ none)
unfolding free_from
free_from-some fd zero i k e = absurd (cc e)
free_from-some fd (suc n) i k e = elim (Option-cases (fd i)) [
  | inl q ↦ grind (arith, q, e)
  | inr (a, q) ↦
      let r = free_from-some fd n (i + 1) k (rw (q, free_from) at e) in
      (
        omega (arith, r),
        omega (arith, r),
        r.2,
        λ j l m. elim (Bool-cases (j == i)) [
          | inl y ↦ λ z. absurd (cc (ap fd (==→eq j i y), q, z))
          | inr y ↦ r.3 j (grind (arith, ==→ne j i y)) m
        ],
      )
]

free_from-lowest :
    (fd : ℕ → Option ℕ) (n i k : ℕ)
    → i ≤ k
    → k < i + n
    → fd k ≡ none
    → ((j : ℕ) → i ≤ j → j < k → fd j ≢ none)
    → free_from fd n i ≡ some k
unfolding free_from
free_from-lowest fd zero i k l m q out = absurd (omega arith)
free_from-lowest fd (suc n) i k l m q out = elim (Option-cases (fd i)) [
  | inl p ↦
      rw (p, free_from)
        (elim (Bool-cases (i == k)) [
          | inl y ↦ ap some (==→eq i k y)
          | inr y ↦ absurd (out i (omega arith) (grind (arith, ==→ne i k y)) p)
        ])
  | inr (a, p) ↦
      rw (p, free_from)
        (free_from-lowest fd n (i + 1) k
          (elim (Bool-cases (i == k)) [
            | inl y ↦ absurd (cc (ap fd (==→eq i k y), p, q))
            | inr y ↦ grind (arith, ==→ne i k y)
          ])
          (omega arith) q (λ j x. out j (omega arith)))
]

-- The new file of an inode is counted once and not locked, and the inode stays what it is.
pub iopen-some :
    (node after : Inode) (i flags : ℕ) (file : Vfile)
    → iopen node i flags ≡ some (file, after)
    → (file.inode ≡ i) × (file.refcnt ≡ 1) × (file.lk ≡ false) × (is_pipe after ≡ false)
unfolding iopen
iopen-some (blk true size) after i flags file e = ground (arith, e)
iopen-some (blk false size) after i flags file e = ground (arith, e)
iopen-some dev after i flags file e = ground (arith, e)
iopen-some proc after i flags file e = ground (arith, e)
iopen-some (pipe_end o) after i flags file e = ground (arith, e)

-- `new_fd_num` gives the lowest free descriptor, and gives none only if all are in use.
pub new_fd_num-IsLowest : (fd : ℕ → Option ℕ) (i : ℕ) → (new_fd_num fd ≡ some i) ↔ IsLowest fd i
unfolding new_fd_num
new_fd_num-IsLowest fd i = (
  λ e.
      let r = free_from-some fd fd_num 0 i e in (omega (arith, r.1), r.2, λ j. r.3 j (omega arith)),
  λ (l, q, out). free_from-lowest fd fd_num 0 i (omega arith) l q (λ j _. out j),
)

free_from-none :
    (fd : ℕ → Option ℕ) (n i : ℕ)
    → free_from fd n i ≡ none
    → (j : ℕ) → i ≤ j
    → j < i + n
    → fd j ≢ none
unfolding free_from
free_from-none fd zero i e j l m = absurd (omega arith)
free_from-none fd (suc n) i e j l m = elim (Option-cases (fd i)) [
  | inl q ↦ absurd (cc (rw (q, free_from) at e))
  | inr (a, q) ↦ elim (Bool-cases (j == i)) [
    | inl y ↦ λ z. absurd (cc (ap fd (==→eq j i y), q, z))
    | inr y ↦
        free_from-none fd n (i + 1) (rw (q, free_from) at e) j (grind (arith, ==→ne j i y))
          (omega arith)
  ]
]

-- With a free descriptor there is a lowest one.
pub lowest :
    (fd : ℕ → Option ℕ) (k : ℕ) → k < fd_num → fd k ≡ none → (j : ℕ) × IsLowest fd j × (j ≤ k)
unfolding new_fd_num
lowest fd k l q = elim (Option-cases (new_fd_num fd)) [
  | inl e ↦ absurd (free_from-none fd fd_num 0 e k (omega arith) (omega arith) q)
  | inr (j, e) ↦
      let low = (new_fd_num-IsLowest fd j).0 e in
      (
        j,
        low,
        elim (Bool-cases (ltb k j)) [
          | inl y ↦ absurd (low.2 k (ltb→lt k j y) q)
          | inr y ↦ ltb→le k j y
        ],
      )
]

-- Finding an inode makes no pipe.
abbrev pub FindsNoPipe : Find → Type 0
FindsNoPipe find =
    (inodes : ℕ → Inode) (start flags : ℕ) (path : List ℕ)
    → ((k : ℕ) → is_pipe (inodes k) ≡ false)
    → (k : ℕ) → is_pipe ((find inodes start path flags).1 k) ≡ false

pub vfs_lookup-NoPipes :
    (find : Find) (root t flags : ℕ) (path : List ℕ) (s : Files) (k : Option ℕ) (inodes : ℕ → Inode)
    → FindsNoPipe find
    → NoPipes s
    → vfs_lookup find root t path flags s ≡ some (k, inodes)
    → (j : ℕ) → is_pipe (inodes j) ≡ false
unfolding vfs_lookup
vfs_lookup-NoPipes find root t flags path s k inodes fp np e j =
    elim (Bool-cases (starts_with_slash path)) [
      | inl b ↦
          let q =
            some-injective (find s.inodes root path flags) (k, inodes) (rw (b, vfs_lookup) at e) in
          sym (ap (λ y. is_pipe (y.1 j)) q) ∙ fp s.inodes root flags path np j
      | inr b ↦ elim (Option-cases (s.cur_dir t)) [
        | inl c ↦ absurd (cc (rw (b, c, vfs_lookup) at e))
        | inr (d, c) ↦
            let q =
              some-injective (find s.inodes d path flags) (k, inodes)
                (rw (b, c, vfs_lookup) at e) in
            sym (ap (λ y. is_pipe (y.1 j)) q) ∙ fp s.inodes d flags path np j
      ]
    ]

-- A new file behind a free descriptor.
pub Held-open :
    (n t i a : ℕ) (e : ℕ → ℕ) (s : Files) (file : Vfile) (inodes : ℕ → Inode)
    → Held n e s
    → Within n t i
    → s.fd t i ≡ none
    → s.heap a ≡ none
    → file.refcnt ≡ 1
    → file.lk ≡ false
    → Held n e (record s {
      heap = update s.heap a (some file);
      inodes = inodes;
      fd = set_fd s.fd t i (some a);
    })
Held-open n t i a e s file inodes h w p q one u =
    Held-write n t i a e e s none (some a) (some file) inodes h w p
      (omega (arith, points_self a, ap refs q)) (λ b ne. omega (arith, points_ne a b ne))
      (λ k r.
        let m = some-injective file k r in
        (λ z. absurd (omega (arith, ap (λ x. x.refcnt) m)), sym (ap (λ x. x.lk) m) ∙ u))

open_found-Keeps :
    (n t i a flags : ℕ) (e : ℕ → ℕ) (s s' : Files) (r : Option ℕ)
    (found : Option (Option ℕ × (ℕ → Inode)))
    → Held n e s
    → Within n t i
    → s.fd t i ≡ none
    → s.heap a ≡ none
    → (NoPipes s
        → (k : Option ℕ) (inodes : ℕ → Inode) → found ≡ some (k, inodes)
        → (j : ℕ) → is_pipe (inodes j) ≡ false)
    → open_found t i a flags s found ≡ some (r, s')
    → Keeps n e s s'
open_found-Keeps n t i a flags e s s' r none h w p q np x = absurd (cc x)
open_found-Keeps n t i a flags e s s' r (some (none, inodes)) h w p q np x =
    rw (sym (ap (λ y. y.1) (some-injective _ _ x)))
      (e, record { counted = h.counted; live = h.live }, λ z. (np z none inodes refl, λ b. refl))
open_found-Keeps n t i a flags e s s' r (some (some k, inodes)) h w p q np x =
    elim (Option-cases (iopen (inodes k) k flags)) [
      | inl c ↦ absurd (cc (x, ap (opened t i a (record s { inodes = inodes })) c))
      | inr (g, c) ↦
          let b = iopen-some (inodes k) g.1 k flags g.0 c in
          rw
            (sym (
              ap (λ y. y.1)
                (some-injective _ _
                  (sym (ap (opened t i a (record s { inodes = inodes })) c) ∙ x))))
            (
              e,
              Held-open n t i a e s g.0 _ h w p q b.1 b.2,
              λ z. (
                NoPipes-update (record s { inodes = inodes }) g.0.inode g.1 b.3
                    (np z (some k) inodes refl),
                λ _. refl,
              ),
            )
    ]

-- `vfs_open` keeps the counts, and with no pipe keeps them exactly.
pub vfs_open-Keeps :
    (find : Find) (root n t a flags : ℕ) (path : List ℕ) (e : ℕ → ℕ) (s s' : Files) (r : Option ℕ)
    → FindsNoPipe find
    → Held n e s
    → t < n
    → s.heap a ≡ none
    → vfs_open find root a t path flags s ≡ some (r, s')
    → Keeps n e s s'
unfolding vfs_open vfs_lookup
vfs_open-Keeps find root n t a flags path e s s' r fp h w q x =
    elim (Option-cases (new_fd_num (s.fd t))) [
      | inl c ↦ absurd (cc (rw (c, vfs_open) at x))
      | inr (i, c) ↦
          let l = (new_fd_num-IsLowest (s.fd t) i).0 c in
          open_found-Keeps n t i a flags e s s' r (vfs_lookup find root t path flags s) h (w, l.0)
            l.1 q (λ np k inodes. vfs_lookup-NoPipes find root t flags path s k inodes fp np)
            (rw (c, vfs_open) at x)
    ]

-- One end of a pipe takes the lowest free descriptor.
pub pipe_file-lowest :
    (t a node i : ℕ) (s : Files)
    → IsLowest (s.fd t) i
    → pipe_file t node a s ≡ some (i, with_end t i node a s)
unfolding pipe_file
pipe_file-lowest t a node i s l = rw ((new_fd_num-IsLowest (s.fd t) i).1 l, pipe_file) refl

pub with_end-Held :
    (n t a node i : ℕ) (e : ℕ → ℕ) (s : Files)
    → Held n e s
    → t < n
    → s.heap a ≡ none
    → IsLowest (s.fd t) i
    → Held n e (with_end t i node a s)
with_end-Held n t a node i e s h w q l =
    Held-open n t i a e s (end_file node) s.inodes h (w, l.0) l.1 q refl refl
