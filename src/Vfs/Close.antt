-- ===== src/Vfs/Close.antt =====
-- What closing a descriptor does to the counts of open files.
use os_workbench.Base.{
  ℕ, ◌+◌, ◌-◌, ◌≡◌, refl, ap, ◌∙◌, ◌≢◌, ◌⊎◌, inl, inr, Bool-cases, Option, true, false, none, some,
  ◌==◌, update, update_self, update_ne, arith,
}
use os_workbench.Vfs.{
  Inode, blk, dev, proc, pipe_end, Files, Vfile, set_fd, iclose, kept, op_done, close_op,
  close_rest, vfs_close,
}
use os_workbench.Vfs.Count.{refs}
use os_workbench.Vfs.Inv.{
  is_pipe, Held, Within, Held-file, Held-write, points_self, points_ne, NoPipes-update, Keeps,
}

pub iclose_cases :
    (node : Inode) (file : Vfile)
    → file.refcnt ≢ 0
    → file.lk ≡ false
    → ((is_pipe node ≡ true) × (iclose node file ≡ some (file, pipe_end false)))
      ⊎ ((is_pipe node ≡ false)
          × (iclose node file
              ≡ some (record file { refcnt = file.refcnt - 1; lk = file.refcnt == 1 }, node)))
unfolding iclose
iclose_cases (pipe_end o) file nz u = inl (refl, refl)
iclose_cases (blk d size) file nz u = inr (refl, ground arith)
iclose_cases dev file nz u = inr (refl, ground arith)
iclose_cases proc file nz u = inr (refl, ground arith)

iclose_counts :
    (node : Inode) (file : Vfile)
    → file.refcnt ≢ 0
    → file.lk ≡ false
    → is_pipe node ≡ false
    → iclose node file
      ≡ some (record file { refcnt = file.refcnt - 1; lk = file.refcnt == 1 }, node)
iclose_counts node file nz u np = elim (iclose_cases node file nz u) [
  | inl x ↦ absurd (cc (x.0, np))
  | inr x ↦ x.1
]

refs-kept : (file : Vfile) → refs (kept file) ≡ file.refcnt
refs-kept file = ground arith

kept-some :
    (file k : Vfile)
    → (file.refcnt ≢ 0 → file.lk ≡ false)
    → kept file ≡ some k
    → (k.refcnt ≢ 0) × (k.lk ≡ false)
kept-some file k u e = ground arith

-- What `vfs_close` gives, by what the `close` of the inode gives.
abbrev without : ℕ → ℕ → ℕ → Files → Vfile → Inode → Files
without task i a s file node = record s {
  heap = update s.heap a (kept file);
  inodes = update s.inodes file.inode node;
  fd = set_fd s.fd task i none;
}

abbrev closed : ℕ → ℕ → ℕ → Files → Option (Vfile × Inode) → Option Files
closed task i a s none = none
closed task i a s (some (file, node)) = some (without task i a s file node)

update_twice : {A : Type 0} (f : ℕ → A) (k : ℕ) (x y : A) → update (update f k x) k y ≡ update f k y
update_twice f k x y = λ i j. at j i
  where
    at : (j : ℕ) → update (update f k x) k y j ≡ update f k y j
    at j = elim (Bool-cases (j == k)) [ inl e ↦ rw e refl | inr e ↦ rw e refl ]

close_op-op_done :
    (t i a : ℕ) (s : Files) (file : Vfile)
    → s.fd t i ≡ some a
    → s.heap a ≡ some file
    → close_op t i s ≡ op_done a s (iclose (s.inodes file.inode) file)
unfolding close_op
close_op-op_done t i a s file p q = rw (p, close_op) (rw (q, close_op) refl)

close_rest-kept :
    (t i a : ℕ) (s : Files) (file : Vfile)
    → s.fd t i ≡ some a
    → s.heap a ≡ some file
    → close_rest t i s
      ≡ some (record s { heap = update s.heap a (kept file); fd = set_fd s.fd t i none })
unfolding close_rest
close_rest-kept t i a s file p q = rw (p, close_rest) (rw (q, close_rest) refl)

close_rest-closed :
    (t i a : ℕ) (s : Files) (r : Option (Vfile × Inode))
    → s.fd t i ≡ some a
    → (elim (op_done a s r) as (λ _. Option Files) [ none ↦ none | some u ↦ close_rest t i u ])
      ≡ closed t i a s r
close_rest-closed t i a s none p = refl
close_rest-closed t i a s (some (file, node)) p =
    close_rest-kept t i a
      (record s { heap = update s.heap a (some file); inodes = update s.inodes file.inode node })
      file p (update_self s.heap a (some file))
    ∙ ap
        (λ h. some (record s {
          heap = h;
          inodes = update s.inodes file.inode node;
          fd = set_fd s.fd t i none;
        }))
        (update_twice s.heap a (some file) (kept file))

vfs_close-closed :
    (t i a : ℕ) (s : Files) (file : Vfile)
    → s.fd t i ≡ some a
    → s.heap a ≡ some file
    → vfs_close t i s ≡ closed t i a s (iclose (s.inodes file.inode) file)
unfolding vfs_close
vfs_close-closed t i a s file p q =
    rw (close_op-op_done t i a s file p q, vfs_close)
      (close_rest-closed t i a s (iclose (s.inodes file.inode) file) p)

-- `vfs_close` of a descriptor that is open succeeds. A pipe's file keeps the count of the pointer.
pub vfs_close-Held :
    (n t i a : ℕ) (e : ℕ → ℕ) (s : Files)
    → Held n e s
    → Within n t i
    → s.fd t i ≡ some a
    → (s' : Files) × (vfs_close t i s ≡ some s') × Keeps n e s s' × (s'.fd ≡ set_fd s.fd t i none)
vfs_close-Held n t i a e s h w p =
    let (file, q, nz, u) = Held-file n t i a e s h w p in
    elim (iclose_cases (s.inodes file.inode) file nz u) [
      | inl (y, c) ↦ (
        without t i a s file (pipe_end false),
        vfs_close-closed t i a s file p q ∙ ap (closed t i a s) c,
        (
          update e a (e a + 1),
          Held-write n t i a e _ s _ none _ _ h w p
              (omega (arith, refs-kept file, update_self e a (e a + 1), points_self a, ap refs q))
              (λ b ne. omega (arith, update_ne e a b (e a + 1) ne, points_ne a b ne))
              (λ k. kept-some file k (λ _. u)),
          λ np. absurd (cc (np file.inode, y)),
        ),
        refl,
      )
      | inr (y, c) ↦
          let file' = record file { refcnt = file.refcnt - 1; lk = file.refcnt == 1 } in
          (
            without t i a s file' (s.inodes file.inode),
            vfs_close-closed t i a s file p q ∙ ap (closed t i a s) c,
            (
              e,
              Held-write n t i a e e s _ none _ _ h w p
                  (grind (arith, refs-kept file', nz, points_self a, ap refs q))
                  (λ b ne. omega (arith, points_ne a b ne))
                  (λ k. kept-some file' k (λ m. ground (arith, m))),
              λ np. (NoPipes-update s file.inode _ y np, λ b. refl),
            ),
            refl,
          )
    ]

close_rest-freed :
    (t i a : ℕ) (s : Files) → s.fd t i ≡ some a → s.heap a ≡ none → close_rest t i s ≡ none
unfolding close_rest
close_rest-freed t i a s p q = rw (p, close_rest) (rw (q, close_rest) refl)

-- Two tasks that close a shared file: if the `close` of both inodes comes before the count is read
-- again, the first frees the file and the second reads freed memory.
close_rest-close_op :
    (t u i j a : ℕ) (s : Files) (file : Vfile)
    → u ≢ t
    → s.fd t i ≡ some a
    → s.fd u j ≡ some a
    → s.heap a ≡ some file
    → file.refcnt ≡ 2
    → file.lk ≡ false
    → is_pipe (s.inodes file.inode) ≡ false
    → (s1 s2 s3 : Files) × (close_op t i s ≡ some s1)
      × (close_op u j s1 ≡ some s2)
      × (close_rest t i s2 ≡ some s3)
      × (close_rest u j s3 ≡ none)
close_rest-close_op t u i j a s file ne pt pu q two unlocked np =
    let node = s.inodes file.inode in
    let one : Vfile = record file { refcnt = file.refcnt - 1; lk = file.refcnt == 1 } in
    let last : Vfile = record one { refcnt = one.refcnt - 1; lk = one.refcnt == 1 } in
    let s1 : Files = record s {
      heap = update s.heap a (some one);
      inodes = update s.inodes file.inode node;
    } in
    let s2 : Files = record s1 {
      heap = update s1.heap a (some last);
      inodes = update s1.inodes file.inode node;
    } in
    let s3 : Files = record s2 { heap = update s2.heap a (kept last); fd = set_fd s.fd t i none } in
    let first : iclose node file ≡ some (one, node) =
      iclose_counts node file (omega (arith, two)) unlocked np in
    let same : s1.inodes file.inode ≡ node = update_self s.inodes file.inode node in
    let second : iclose node one ≡ some (last, node) =
      iclose_counts node one (omega (arith, two)) (ground (arith, two)) np in
    let gone : kept last ≡ none = ground (arith, two) in
    (
      s1,
      s2,
      s3,
      close_op-op_done t i a s file pt q ∙ ap (op_done a s) first,
      close_op-op_done u j a s1 one pu (update_self s.heap a (some one))
          ∙ ap (λ n. op_done a s1 (iclose n one)) same
          ∙ ap (op_done a s1) second,
      close_rest-kept t i a s2 last pt (update_self s1.heap a (some last)),
      close_rest-freed u j a s3 (ap (λ f. f j) (update_ne s.fd t u _ ne) ∙ pu)
          (update_self s2.heap a (kept last) ∙ gone),
    )
