-- ===== src/Vfs/Reach.antt =====
-- What holds of open files over any sequence of calls: their counts, and that closing works.
use os_workbench.Base.{
  ℕ, zero, suc, ◌<◌, ◌≡◌, refl, sym, ap, ◌∙◌, ◌≢◌, Bool, false, Option, none, some, List, arith,
  Option-cases, inl, inr,
}
use mathlib.Core.Option.{some-injective}
use os_workbench.Dir.{dir_cat}
use os_workbench.Vfs.{
  Inode, Files, Vfile, Find, fd_num, set_fd, vfs_close, vfs_chdir, moved, chdir_found,
}
use os_workbench.Vfs.Task.{exit_files}
use os_workbench.Vfs.Count.{count, refs, sum, points}
use os_workbench.Vfs.Inv.{is_pipe, Held, Held-file, Within, NoPipes, Keeps}
use os_workbench.Vfs.Open.{FindsNoPipe, vfs_open-Keeps, vfs_lookup-NoPipes}
use os_workbench.Vfs.Close.{vfs_close-Held}
use os_workbench.Vfs.Share.{create_files-Held}
use os_workbench.Vfs.Exit.{exit_files-Held}
use os_workbench.Vfs.Ends.{pipe_files-piped, piped-Held}
use os_workbench.Vfs.Pipeline.{run_pipe_files_wires}
use os_workbench.Vfs.Steps.{
  IsEmpty, Step, opens, closes, goes, creates, exits, pipes, runs_pipe, Reach, here, next, Sound,
  Keeps-Sound, Held-Sound,
}

chdir_found-Keeps :
    (n t : ℕ) (e : ℕ → ℕ) (path : List ℕ) (s s' : Files) (done : Bool)
    (found : Option (Option ℕ × (ℕ → Inode)))
    → Held n e s
    → (NoPipes s
        → (k : Option ℕ) (inodes : ℕ → Inode) → found ≡ some (k, inodes)
        → (j : ℕ) → is_pipe (inodes j) ≡ false)
    → chdir_found t path s found ≡ some (done, s')
    → Keeps n e s s'
chdir_found-Keeps n t e path s s' done none h np x = absurd (cc x)
chdir_found-Keeps n t e path s s' done (some (none, inodes)) h np x =
    rw (sym (ap (λ y. y.1) (some-injective _ _ x)))
      (e, record { counted = h.counted; live = h.live }, λ z. (np z none inodes refl, λ b. refl))
chdir_found-Keeps n t e path s s' done (some (some k, inodes)) h np x =
    elim (Option-cases (dir_cat (s.pwd t) path)) [
      | inl c ↦ absurd (cc (x, ap (moved t s inodes k) c))
      | inr (p, c) ↦
          rw (sym (ap (λ y. y.1) (some-injective _ _ (sym (ap (moved t s inodes k) c) ∙ x)))) (
            e,
            record { counted = h.counted; live = h.live },
            λ z. (np z (some k) inodes refl, λ b. refl),
          )
    ]

-- The state that a total call gives is the one that the step names.
same_state : (s' : Files) (t : Files) {o : Option Files} → o ≡ some t → o ≡ some s' → t ≡ s'
same_state s' t p q = some-injective t s' (sym p ∙ q)

pub Step-Sound :
    (find : Find) (root n : ℕ) (piped : Bool) {s s' : Files}
    → FindsNoPipe find
    → Step find root n piped s s'
    → Sound n piped s
    → Sound n piped s'
unfolding vfs_chdir
Step-Sound find root n piped {s} {s'} fp (opens t a flags path r w q x) h =
    Keeps-Sound n piped s s' h (vfs_open-Keeps find root n t a flags path h.0 s s' r fp h.1 w q x)
Step-Sound find root n piped {s} {s'} fp (closes t i a w p x) h =
    let r = vfs_close-Held n t i a h.0 s h.1 w p in
    Keeps-Sound n piped s s' h (rw (same_state s' r.0 r.1 x) at r.2)
Step-Sound find root n piped {s} {s'} fp (goes t path done x) h = Keeps-Sound n piped s s' h (
    chdir_found-Keeps n t h.0 path s s' done _ h.1
      (λ np k inodes. vfs_lookup-NoPipes find root t _ path s k inodes fp np) x)
Step-Sound find root n piped {s} {s'} fp (creates cur t c w d free x) h =
    let r = create_files-Held n cur t h.0 s h.1 c w d free in
    rw (sym (same_state s' r.0 r.1 x)) (
      Keeps-Sound n piped s r.0 h
        (h.0, r.2, λ np. (λ k. ap (λ f. is_pipe (f k)) r.3 ∙ np k, λ _. refl)))
Step-Sound find root n piped {s} {s'} fp (exits t w x) h =
    let r = exit_files-Held n t h.0 s h.1 w in
    Keeps-Sound n piped s s' h (rw (same_state s' r.0 r.1 x) at r.2)
Step-Sound find root n piped {s} {s'} fp (pipes t node a b i j q w fa fb ba li lj x) h =
    let e = some-injective _ _ (sym (pipe_files-piped t node a b i j s li lj) ∙ x) in
    rw (sym (ap (λ y. y.2) e))
      (Held-Sound n piped h.0 _ q (piped-Held n t node a b i j h.0 s h.1 w fa fb ba li lj))
Step-Sound find root n piped {s} {s'} fp
      (runs_pipe t node a b i j left right x y q w dl dr drl fl fr fa fb ba li lj f0 f1 run) h =
    let r =
      run_pipe_files_wires n t node a b i j left right x y h.0 s h.1 w dl dr drl fl fr fa fb ba li
        lj f0 f1 in
    rw (sym (same_state s' r.0 r.1 run)) (Held-Sound n piped _ r.0 q r.2)

sum_zero : (n : ℕ) (f : ℕ → ℕ) → ((k : ℕ) → k < n → f k ≡ 0) → sum n f ≡ 0
sum_zero zero f h = refl
sum_zero (suc n) f h = omega (arith, sum_zero n f (λ k l. h k (omega arith)), h n (omega arith))

pub IsEmpty-Sound : (n : ℕ) (piped : Bool) (s : Files) → IsEmpty s → NoPipes s → Sound n piped s
IsEmpty-Sound n piped s (none_open, no_file) np = (
  λ _. 0,
  record {
    counted = λ a. omega (
      arith,
      sum_zero n _ (λ t _. sum_zero fd_num _ (λ i _. ap (λ o. points o a) (none_open t i))),
      ap refs (no_file a),
    );
    live = λ a file q. absurd (cc (no_file a, q));
  },
  λ _. (np, λ _. refl),
)

pub Reach-Sound :
    (find : Find) (root n : ℕ) (piped : Bool) {s s' : Files}
    → FindsNoPipe find
    → Sound n piped s
    → Reach find root n piped s s'
    → Sound n piped s'
Reach-Sound find root n piped fp h here = h
Reach-Sound find root n piped fp h (next r st) =
    Step-Sound find root n piped fp st (Reach-Sound find root n piped fp h r)

-- If finding an inode makes no pipe, then in every state that whole calls without pipes, one after the
-- other and never one inside another, reach from one without open files, each file has the count of the descriptors at it, and memory that no descriptor
-- points at holds no file.
pub Reach-counted :
    (find : Find) (root n : ℕ) (s s' : Files)
    → FindsNoPipe find
    → IsEmpty s
    → NoPipes s
    → Reach find root n false s s'
    → (a : ℕ) → (count n s'.fd a ≡ refs (s'.heap a)) × (count n s'.fd a ≡ 0 → s'.heap a ≡ none)
Reach-counted find root n s s' fp em np r a =
    let h = Reach-Sound find root n false fp (IsEmpty-Sound n false s em np) r in
    let eq : count n s'.fd a ≡ refs (s'.heap a) = omega (arith, h.1.counted a, (h.2 refl).1 a) in
    (
      eq,
      λ z. elim (Option-cases (s'.heap a)) [
        | inl q ↦ q
        | inr (file, q) ↦ absurd ((h.1.live a file q).0 (omega (arith, ap refs q, z)))
      ],
    )

-- If finding an inode makes no pipe, then in every state that whole calls, also those that make pipes,
-- one after the other and never one inside another, reach from one without open files, every open
-- descriptor has its file in memory and not locked; with no call of another task in between, closing it
-- succeeds and frees that descriptor alone, and so does the exit of its task for all of the task's.
pub Reach-closes :
    (find : Find) (root n t i a : ℕ) (piped : Bool) (s s' : Files)
    → FindsNoPipe find
    → IsEmpty s
    → NoPipes s
    → Reach find root n piped s s'
    → Within n t i
    → s'.fd t i ≡ some a
    → ((file : Vfile) × (s'.heap a ≡ some file) × (file.lk ≡ false))
      × ((u : Files) × (vfs_close t i s' ≡ some u) × (u.fd ≡ set_fd s'.fd t i none))
      × ((u : Files) × (exit_files t s' ≡ some u)
          × ((k : ℕ) → k < fd_num → u.fd t k ≡ none)
          × ((o : ℕ) → o ≢ t → u.fd o ≡ s'.fd o))
Reach-closes find root n t i a piped s s' fp em np r w p =
    let h = Reach-Sound find root n piped fp (IsEmpty-Sound n piped s em np) r in
    let f = Held-file n t i a h.0 s' h.1 w p in
    let c = vfs_close-Held n t i a h.0 s' h.1 w p in
    let x = exit_files-Held n t h.0 s' h.1 w.0 in
    ((f.0, f.1, f.3), (c.0, c.1, c.3), (x.0, x.1, λ k l. x.3.1 k (omega arith) l, x.3.0))
