-- ===== src/Vfs/Inv.antt =====
-- The reference counts of open files: what `vfs_open`, `vfs_close` and the loops of `kmt_create` and
-- `exit` do to the sum of the pointers to a file.
use os_workbench.Base.{
  ℕ, ◌+◌, ◌<◌, ◌≡◌, sym, ap, ◌∙◌, ◌≢◌, inl, inr, Bool, true, false, Option, none, some, ◌==◌,
  if◌then◌else◌, update, update_self, update_ne, arith, ==_refl, ==→eq, ==→ne, Bool-cases,
  Option-cases,
}
use os_workbench.Vfs.{Inode, blk, dev, proc, pipe_end, Files, Vfile, fd_num, set_fd}
use os_workbench.Vfs.Count.{points, count, refs, count-set_fd, count-points}

abbrev pub is_pipe : Inode → Bool
is_pipe (blk d size) = false
is_pipe dev = false
is_pipe proc = false
is_pipe (pipe_end o) = true

-- Each file is counted once for each descriptor at it, and `e` times more; only files in use are in
-- memory, and none is locked.
pub record Held (n : ℕ) (e : ℕ → ℕ) (s : Files) : Type 0 where
  pub counted : (a : ℕ) → count n s.fd a + e a ≡ refs (s.heap a)
  pub live : (a : ℕ) (file : Vfile) → s.heap a ≡ some file → (file.refcnt ≢ 0) × (file.lk ≡ false)

-- Only descriptors below `n` tasks are used.
abbrev pub Within : ℕ → ℕ → ℕ → Type 0
Within n t i = (t < n) × (i < fd_num)

-- A pointer leads to a file that has it counted.
pub Held-file :
    (n t i a : ℕ) (e : ℕ → ℕ) (s : Files)
    → Held n e s
    → Within n t i
    → s.fd t i ≡ some a
    → (file : Vfile) × (s.heap a ≡ some file) × (file.refcnt ≢ 0) × (file.lk ≡ false)
Held-file n t i a e s v w p = elim (Option-cases (s.heap a)) [
  | inl q ↦ absurd (omega (arith, v.counted a, count-points n t i a s.fd w.0 w.1 p, ap refs q))
  | inr (file, q) ↦ let l = v.live a file q in (file, q, l.0, l.1)
]

pub points_self : (a : ℕ) → points (some a) a ≡ 1
points_self a = ap {B = ℕ} (λ x. if x then 1 else 0) (==_refl a)

pub points_ne : (a b : ℕ) → b ≢ a → points (some a) b ≡ 0
points_ne a b ne = ground arith

-- A write to one descriptor together with one to one file, which balance.
pub Held-write :
    (n t i a : ℕ) (e d : ℕ → ℕ) (s : Files) (u v : Option ℕ) (o : Option Vfile) (inodes : ℕ → Inode)
    → Held n e s
    → Within n t i
    → s.fd t i ≡ u
    → points v a + d a + refs (s.heap a) ≡ points u a + e a + refs o
    → ((b : ℕ) → b ≢ a → points v b + d b ≡ points u b + e b)
    → ((file : Vfile) → o ≡ some file → (file.refcnt ≢ 0) × (file.lk ≡ false))
    → Held n d (record s { heap = update s.heap a o; inodes = inodes; fd = set_fd s.fd t i v })
Held-write n t i a e d s u v o inodes h w p here out good = record {
  counted = λ b. elim (Bool-cases (b == a)) [
    | inl y ↦
        let k = ==→eq b a y in
        omega (
          arith,
          h.counted b,
          here,
          count-set_fd n t i b s.fd v w.0 w.1,
          ap (λ x. points x b) p,
          ap (points u) k,
          ap (points v) k,
          ap d k,
          ap e k,
          ap (λ x. refs (s.heap x)) k,
          ap (λ x. refs (update s.heap a o x)) k,
          ap refs (update_self s.heap a o),
        )
    | inr y ↦
        let ne = ==→ne b a y in
        omega (
          arith,
          h.counted b,
          out b ne,
          count-set_fd n t i b s.fd v w.0 w.1,
          ap (λ x. points x b) p,
          ap refs (update_ne s.heap a b o ne),
        )
  ];
  live = λ b file q. elim (Bool-cases (b == a)) [
    | inl y ↦ good file (sym (ap (update s.heap a o) (==→eq b a y) ∙ update_self s.heap a o) ∙ q)
    | inr y ↦ h.live b file (sym (update_ne s.heap a b o (==→ne b a y)) ∙ q)
  ];
}

abbrev pub NoPipes : Files → Type 0
NoPipes s = (k : ℕ) → is_pipe (s.inodes k) ≡ false

pub NoPipes-update :
    (s : Files) (k : ℕ) (node : Inode)
    → is_pipe node ≡ false
    → NoPipes s
    → (j : ℕ) → is_pipe (update s.inodes k node j) ≡ false
NoPipes-update s k node q h j = elim (Bool-cases (j == k)) [
  | inl y ↦ ap is_pipe (ap (update s.inodes k node) (==→eq j k y) ∙ update_self s.inodes k node) ∙ q
  | inr y ↦ ap is_pipe (update_ne s.inodes k j node (==→ne j k y)) ∙ h j
]

-- What an operation keeps: the counts, and with no pipe every count exactly.
abbrev pub Keeps : ℕ → (ℕ → ℕ) → Files → Files → Type 0
Keeps n e s s' = (e' : ℕ → ℕ) × Held n e' s' × (NoPipes s → NoPipes s' × ((a : ℕ) → e' a ≡ e a))

pub Keeps-trans :
    (n : ℕ) (e : ℕ → ℕ) (s t u : Files) (k : Keeps n e s t) → Keeps n k.0 t u → Keeps n e s u
Keeps-trans n e s t u k l =
    (l.0, l.1, λ np. ((l.2 (k.2 np).0).0, λ a. (l.2 (k.2 np).0).1 a ∙ (k.2 np).1 a))

-- Writes to descriptors alone, whose lost pointers `d` goes on to count.
pub Held-lose :
    (n : ℕ) (e d : ℕ → ℕ) (s : Files) (fd : ℕ → ℕ → Option ℕ)
    → Held n e s
    → ((a : ℕ) → count n fd a + d a ≡ count n s.fd a + e a)
    → Held n d (record s { fd = fd })
Held-lose n e d s fd h q = record { counted = λ a. q a ∙ h.counted a; live = h.live }

-- Nothing points at memory that holds no file.
pub Held-fresh :
    (n a : ℕ) (e : ℕ → ℕ) (s : Files)
    → Held n e s
    → s.heap a ≡ none
    → (count n s.fd a ≡ 0) × (e a ≡ 0)
Held-fresh n a e s h q = omega (arith, h.counted a, ap refs q)
