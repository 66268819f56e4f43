-- ===== src/Vfs/Share.antt =====
-- What creating a task does to the counts of open files.
use os_workbench.Base.{
  ℕ, zero, suc, ◌+◌, ◌≤◌, ◌<◌, ◌≡◌, refl, sym, ap, ◌∙◌, ◌≢◌, inl, inr, false, none, some, ◌==◌,
  update, update_self, update_ne, arith, Option-cases, Bool-cases, ==→eq, ==→ne,
}
use mathlib.Core.Option.{some-injective}
use os_workbench.Vfs.{Files, Vfile, fd_num, set_fd}
use os_workbench.Vfs.Task.{inherit, blank, create_files}
use os_workbench.Vfs.Count.{refs, count-blank}
use os_workbench.Vfs.Inv.{Held, Within, Held-file, Held-write, Held-lose, points_self, points_ne}
use os_workbench.Vfs.Became.{Became, Became-next, Became-skip}

abbrev shared : ℕ → ℕ → ℕ → Files → Vfile → Files
shared t i a s file = record s {
  heap = update s.heap a (some (record file { refcnt = file.refcnt + 1; lk = false }));
  fd = set_fd s.fd t i (some a);
}

inherit_step :
    (k i cur t a : ℕ) (s : Files) (file : Vfile)
    → s.fd cur i ≡ some a
    → s.heap a ≡ some file
    → file.lk ≡ false
    → inherit (suc k) i cur t s ≡ inherit k (i + 1) cur t (shared t i a s file)
unfolding inherit
inherit_step k i cur t a s file p q u = rw (p, inherit) (rw (q, inherit) (rw (u, inherit) refl))

shared-Held :
    (n t i a : ℕ) (e : ℕ → ℕ) (s : Files) (file : Vfile)
    → Held n e s
    → Within n t i
    → s.fd t i ≡ none
    → s.heap a ≡ some file
    → Held n e (shared t i a s file)
shared-Held n t i a e s file h w p q =
    Held-write n t i a e e s none (some a) _ s.inodes h w p
      (omega (arith, points_self a, ap refs q)) (λ b ne. omega (arith, points_ne a b ne))
      (λ g r.
        let m = some-injective (record file { refcnt = file.refcnt + 1; lk = false }) g r in
        (λ z. absurd (omega (arith, ap (λ x. x.refcnt) m)), sym (ap (λ x. x.lk) m)))

-- Every file stays in memory, on its inode.
abbrev pub Stays : Files → Files → Type 0
Stays s s' =
    (a : ℕ) (file : Vfile)
    → s.heap a ≡ some file
    → (file' : Vfile) × (s'.heap a ≡ some file') × (file'.inode ≡ file.inode)

shared-Stays :
    (t i a : ℕ) (s : Files) (file : Vfile) → s.heap a ≡ some file → Stays s (shared t i a s file)
shared-Stays t i a s file q b f r = elim (Bool-cases (b == a)) [
  | inl y ↦ (
    record file { refcnt = file.refcnt + 1; lk = false },
    ap (update s.heap a _) (==→eq b a y) ∙ update_self s.heap a _,
    ap (λ x. x.inode) (some-injective file f (sym q ∙ sym (ap s.heap (==→eq b a y)) ∙ r)),
  )
  | inr y ↦ (f, update_ne s.heap a b _ (==→ne b a y) ∙ r, refl)
]

Stays-trans : (s t u : Files) → Stays s t → Stays t u → Stays s u
Stays-trans s t u f g a file q = let m = f a file q in let o = g a m.0 m.1 in (o.0, o.1, o.2 ∙ m.2)

inherit-Held :
    (n k i cur t : ℕ) (e : ℕ → ℕ) (s : Files)
    → Held n e s
    → cur < n
    → t < n
    → cur ≢ t
    → i + k ≤ fd_num
    → ((j : ℕ) → i ≤ j → j < i + k → s.fd t j ≡ none)
    → (s' : Files) × (inherit k i cur t s ≡ some s')
      × Held n e s'
      × (s'.inodes ≡ s.inodes)
      × (s'.cur_dir ≡ s.cur_dir)
      × (s'.pwd ≡ s.pwd)
      × Stays s s'
      × Became k i t (s.fd cur) s.fd s'.fd
unfolding inherit
inherit-Held n zero i cur t e s h c w ne l free = (
  s,
  refl,
  h,
  refl,
  refl,
  refl,
  λ a f q. (f, q, refl),
  (λ _ _. refl, λ k a b. absurd (omega arith), λ _ _. refl),
)
inherit-Held n (suc k) i cur t e s h c w ne l free = elim (Option-cases (s.fd cur i)) [
  | inl p ↦
      let r =
        inherit-Held n k (i + 1) cur t e s h c w ne (omega arith)
          (λ j a b. free j (omega arith) (omega arith)) in
      (
        r.0,
        rw (p, inherit) r.1,
        r.2,
        r.3,
        r.4,
        r.5,
        r.6,
        Became-skip k i t (s.fd cur) s.fd r.0.fd (free i (omega arith) (omega arith) ∙ sym p) r.7,
      )
  | inr (a, p) ↦
      let f = Held-file n cur i a e s h (c, omega arith) p in
      let s1 = shared t i a s f.0 in
      let h1 =
        shared-Held n t i a e s f.0 h (w, omega arith) (free i (omega arith) (omega arith)) f.1 in
      let r = inherit-Held n k (i + 1) cur t e s1 h1 c w ne (omega arith) (λ j x y.
        ap (λ g. g j) (update_self s.fd t (update (s.fd t) i (some a)))
        ∙ update_ne (s.fd t) i j (some a) (λ q. absurd (omega arith))
        ∙ free j (omega arith) (omega arith)) in
      (
        r.0,
        inherit_step k i cur t a s f.0 p f.1 f.3 ∙ r.1,
        r.2,
        r.3,
        r.4,
        r.5,
        Stays-trans s s1 r.0 (shared-Stays t i a s f.0 f.1) r.6,
        Became-next k i t (s.fd cur) (some a) s.fd r.0.fd (sym p)
            (rw (update_ne s.fd t cur (update (s.fd t) i (some a)) ne) at r.7),
      )
]

-- A task that another creates has the other's files at the same descriptors.
pub create_files-Held :
    (n cur t : ℕ) (e : ℕ → ℕ) (s : Files)
    → Held n e s
    → cur < n
    → t < n
    → cur ≢ t
    → ((i : ℕ) → i < fd_num → s.fd t i ≡ none)
    → (s' : Files) × (create_files (some cur) t s ≡ some s')
      × Held n e s'
      × (s'.inodes ≡ s.inodes)
      × (s'.cur_dir ≡ update s.cur_dir t (s.cur_dir cur))
      × (s'.pwd ≡ update s.pwd t (s.pwd cur))
      × Stays s s'
      × Became fd_num 0 t (s.fd cur) s.fd s'.fd
unfolding create_files
create_files-Held n cur t e s h c w ne free =
    let s1 = record (blank t s) {
      cur_dir = update s.cur_dir t (s.cur_dir cur);
      pwd = update s.pwd t (s.pwd cur);
    } in
    let g = Held-lose n e e s s1.fd h (λ a. ap (λ x. x + e a) (count-blank n t a s.fd free)) in
    let same = update_ne s.fd t cur (λ _. none) ne in
    let r =
      inherit-Held n fd_num 0 cur t e s1 (record { counted = g.counted; live = g.live }) c w ne
        (omega arith) (λ j _ _. ap (λ f. f j) (update_self s.fd t (λ _. none))) in
    (
      r.0,
      r.1,
      r.2,
      r.3,
      r.4,
      r.5,
      r.6,
      (
        λ u d. r.7.0 u d ∙ update_ne s.fd t u (λ _. none) d,
        λ k l m. r.7.1 k l m ∙ ap (λ f. f k) same,
        λ k l. absurd (omega arith),
      ),
    )
