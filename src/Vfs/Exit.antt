-- ===== src/Vfs/Exit.antt =====
-- What the exit of a task does to the counts of open files.
use os_workbench.Base.{
  ℕ, zero, suc, ◌+◌, ◌≤◌, ◌<◌, ◌≡◌, refl, inl, inr, none, some, arith, Option-cases,
}
use os_workbench.Vfs.{Files, fd_num}
use os_workbench.Vfs.Task.{close_from, exit_files}
use os_workbench.Vfs.Inv.{Held, Keeps, Keeps-trans}
use os_workbench.Vfs.Close.{vfs_close-Held}
use os_workbench.Vfs.Became.{Became, Became-next, Became-skip}

close_from-Held :
    (n k i t : ℕ) (e : ℕ → ℕ) (s : Files)
    → Held n e s
    → t < n
    → i + k ≤ fd_num
    → (s' : Files) × (close_from k i t s ≡ some s')
      × Keeps n e s s'
      × Became k i t (λ _. none) s.fd s'.fd
unfolding close_from
close_from-Held n zero i t e s h w l = (
  s,
  refl,
  (e, h, λ np. (np, λ _. refl)),
  (λ _ _. refl, λ k a b. absurd (omega arith), λ _ _. refl),
)
close_from-Held n (suc k) i t e s h w l = elim (Option-cases (s.fd t i)) [
  | inl p ↦
      let r = close_from-Held n k (i + 1) t e s h w (omega arith) in
      (r.0, rw (p, close_from) r.1, r.2, Became-skip k i t (λ _. none) s.fd r.0.fd p r.3)
  | inr (a, p) ↦
      let c = vfs_close-Held n t i a e s h (w, omega arith) p in
      let r = close_from-Held n k (i + 1) t c.2.0 c.0 c.2.1 w (omega arith) in
      (
        r.0,
        rw (p, close_from) (rw (c.1, close_from) r.1),
        Keeps-trans n e s c.0 r.0 c.2 r.2,
        Became-next k i t (λ _. none) none s.fd r.0.fd refl (rw c.3 at r.3),
      )
]

-- `exit` of a task closes all its files and no others.
pub exit_files-Held :
    (n t : ℕ) (e : ℕ → ℕ) (s : Files)
    → Held n e s
    → t < n
    → (s' : Files) × (exit_files t s ≡ some s')
      × Keeps n e s s'
      × Became fd_num 0 t (λ _. none) s.fd s'.fd
unfolding exit_files
exit_files-Held n t e s h w = close_from-Held n fd_num 0 t e s h w (omega arith)
