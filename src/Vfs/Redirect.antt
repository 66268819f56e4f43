-- ===== src/Vfs/Redirect.antt =====
-- When a redirection of kernel/src/shell/runcmd.c runs its command.
use os_workbench.Base.{
  ℕ, ◌<◌, ◌≡◌, sym, ap, ◌∙◌, ◌≢◌, none, some, List, if◌then◌else◌, update, update_self, arith,
  ==_refl,
}
use mathlib.Core.Option.{some-injective}
use os_workbench.Vfs.{
  Inode, Files, Vfile, Find, set_fd, iopen, opened, open_found, vfs_open, vfs_close, vfs_lookup,
}
use os_workbench.Vfs.Task.{Redirected, runs, exits, redirected, run_redir}
use os_workbench.Vfs.Count.{set_fd_self, set_fd_ne, set_fd_out}
use os_workbench.Vfs.Inv.{Held, Within}
use os_workbench.Vfs.Close.{vfs_close-Held}
use os_workbench.Vfs.Open.{IsLowest, lowest, new_fd_num-IsLowest, iopen-some}

abbrev with_file : ℕ → ℕ → ℕ → Files → (ℕ → Inode) → Vfile → Inode → Files
with_file t i addr u inodes file node = record u {
  heap = update u.heap addr (some file);
  inodes = update inodes file.inode node;
  fd = set_fd u.fd t i (some addr);
}

-- `vfs_open` at the lowest free descriptor.
pub vfs_open-lowest :
    (find : Find) (root addr t j k mode : ℕ) (path : List ℕ) (u : Files) (inodes : ℕ → Inode)
    (file : Vfile) (node : Inode)
    → IsLowest (u.fd t) j
    → vfs_lookup find root t path mode u ≡ some (some k, inodes)
    → iopen (inodes k) k mode ≡ some (file, node)
    → vfs_open find root addr t path mode u ≡ some (some j, with_file t j addr u inodes file node)
unfolding vfs_open
vfs_open-lowest find root addr t j k mode path u inodes file node l p q =
    rw ((new_fd_num-IsLowest (u.fd t) j).1 l, vfs_open)
      (ap (open_found t j addr mode u) p ∙ ap (opened t j addr (record u { inodes = inodes })) q)

run_redir-opens :
    (find : Find) (root addr t i j k mode : ℕ) (path : List ℕ) (s u : Files) (inodes : ℕ → Inode)
    (file : Vfile) (node : Inode)
    → vfs_close t i s ≡ some u
    → IsLowest (u.fd t) j
    → vfs_lookup find root t path mode u ≡ some (some k, inodes)
    → iopen (inodes k) k mode ≡ some (file, node)
    → run_redir find root addr t i path mode s
      ≡ redirected i (some (some j, with_file t j addr u inodes file node))
unfolding run_redir
run_redir-opens find root addr t i j k mode path s u inodes file node c l p q =
    rw (c, run_redir)
      (ap (redirected i) (vfs_open-lowest find root addr t j k mode path u inodes file node l p q))

redirected_same : (i : ℕ) (s : Files) → redirected i (some (some i, s)) ≡ runs s
redirected_same i s = ap {B = Redirected} (λ b. if b then runs s else exits s) (==_refl i)

redirected_lower : (i j : ℕ) (s : Files) → j < i → redirected i (some (some j, s)) ≡ exits s
redirected_lower i j s l = ground arith

-- Redirecting a descriptor that is open, in a state whose counts hold, to a path that is found and can
-- be opened: with every lower descriptor in use the command runs, with the new file at that descriptor
-- and all other descriptors as they were; with a lower one free the task exits.
pub run_redir_lower :
    (find : Find) (root n addr t i k c mode : ℕ) (path : List ℕ) (e : ℕ → ℕ) (s u : Files)
    (inodes : ℕ → Inode) (file : Vfile) (node : Inode)
    → Held n e s
    → Within n t i
    → s.fd t i ≡ some c
    → vfs_close t i s ≡ some u
    → vfs_lookup find root t path mode u ≡ some (some k, inodes)
    → iopen (inodes k) k mode ≡ some (file, node)
    → (((m : ℕ) → m < i → s.fd t m ≢ none)
        → (s' : Files) × (run_redir find root addr t i path mode s ≡ runs s')
          × (s'.fd t i ≡ some addr)
          × (s'.heap addr ≡ some file)
          × (file.inode ≡ k)
          × ((m : ℕ) → m ≢ i → s'.fd t m ≡ s.fd t m)
          × ((o : ℕ) → o ≢ t → s'.fd o ≡ s.fd o))
      × ((m : ℕ)
          → m < i
          → s.fd t m ≡ none
          → (s' : Files) × (run_redir find root addr t i path mode s ≡ exits s'))
run_redir_lower find root n addr t i k c mode path e s u inodes file node h w p x l q =
    let r = vfs_close-Held n t i c e s h w p in
    let same : r.0 ≡ u = some-injective r.0 u (sym r.1 ∙ x) in
    let ufd : u.fd ≡ set_fd s.fd t i none = ap (λ y. y.fd) (sym same) ∙ r.3 in
    let free : u.fd t i ≡ none = ap (λ f. f t i) ufd ∙ set_fd_self s.fd t i none in
    let keep : (m : ℕ) → m ≢ i → u.fd t m ≡ s.fd t m =
      λ m ne. ap (λ f. f t m) ufd ∙ set_fd_ne s.fd t i m none ne in
    let opens = λ (j : ℕ) (low : IsLowest (u.fd t) j).
      run_redir-opens find root addr t i j k mode path s u inodes file node x low l q in
    (
      λ lower.
          let low : IsLowest (u.fd t) i =
            (w.1, free, λ m a z. lower m a (sym (keep m (λ y. absurd (omega arith))) ∙ z)) in
          (
            with_file t i addr u inodes file node,
            opens i low ∙ redirected_same i (with_file t i addr u inodes file node),
            set_fd_self u.fd t i (some addr),
            update_self u.heap addr (some file),
            (iopen-some (inodes k) node k mode file q).0,
            λ m ne. set_fd_ne u.fd t i m (some addr) ne ∙ keep m ne,
            λ o ne.
                set_fd_out u.fd t o i (some addr) ne
                ∙ ap (λ f. f o) ufd
                ∙ set_fd_out s.fd t o i none ne,
          ),
      λ m a z.
          let g = lowest (u.fd t) m (omega arith) (keep m (λ y. absurd (omega arith)) ∙ z) in
          (
            with_file t g.0 addr u inodes file node,
            opens g.0 g.1 ∙ redirected_lower i g.0 _ (omega (arith, g.2)),
          ),
    )
