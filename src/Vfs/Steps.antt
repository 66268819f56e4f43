-- ===== src/Vfs/Steps.antt =====
-- Open files over any sequence of calls of kernel/src/fs/vfs.c and of tasks that are created and exit.
use os_workbench.Base.{ℕ, ◌<◌, ◌≡◌, ◌∙◌, ◌≢◌, Bool, true, false, Option, none, some, List}
use os_workbench.Vfs.{Files, Find, fd_num, set_fd, vfs_open, vfs_close, vfs_chdir}
use os_workbench.Vfs.Task.{create_files, exit_files, pipe_files, run_pipe_files}
use os_workbench.Vfs.Inv.{Held, Within, NoPipes, Keeps}
use os_workbench.Vfs.Open.{IsLowest}

-- No task has a file, and no file is in memory.
abbrev pub IsEmpty : Files → Type 0
IsEmpty s = ((t i : ℕ) → s.fd t i ≡ none) × ((a : ℕ) → s.heap a ≡ none)

-- The calls of the first `n` tasks; memory for files is free when it is given out, and a task that is
-- created has no files. Only with `piped` are there pipes. Calls run one after the other, each to its
-- end: the code does not keep two tasks from closing a file they share at once (`close_rest-close_op`).
pub data Step (find : Find) (root n : ℕ) (piped : Bool) (s s' : Files) : Type 0 where
  opens :
      (t a flags : ℕ) (path : List ℕ) (r : Option ℕ)
      → t < n
      → s.heap a ≡ none
      → vfs_open find root a t path flags s ≡ some (r, s')
      → Step find root n piped s s'
  closes :
      (t i a : ℕ)
      → Within n t i
      → s.fd t i ≡ some a
      → vfs_close t i s ≡ some s'
      → Step find root n piped s s'
  goes :
      (t : ℕ) (path : List ℕ) (done : Bool)
      → vfs_chdir find root t path s ≡ some (done, s')
      → Step find root n piped s s'
  creates :
      (cur t : ℕ)
      → cur < n
      → t < n
      → cur ≢ t
      → ((i : ℕ) → i < fd_num → s.fd t i ≡ none)
      → create_files (some cur) t s ≡ some s'
      → Step find root n piped s s'
  exits : (t : ℕ) → t < n → exit_files t s ≡ some s' → Step find root n piped s s'
  pipes :
      (t node a b i j : ℕ)
      → piped ≡ true
      → t < n
      → s.heap a ≡ none
      → s.heap b ≡ none
      → b ≢ a
      → IsLowest (s.fd t) i
      → IsLowest (set_fd s.fd t i (some a) t) j
      → pipe_files t node a b s ≡ some (i, j, s')
      → Step find root n piped s s'
  runs_pipe :
      (t node a b i j left right x y : ℕ)
      → piped ≡ true
      → (t < n) × (left < n) × (right < n)
      → left ≢ t
      → right ≢ t
      → right ≢ left
      → ((k : ℕ) → k < fd_num → s.fd left k ≡ none)
      → ((k : ℕ) → k < fd_num → s.fd right k ≡ none)
      → s.heap a ≡ none
      → s.heap b ≡ none
      → b ≢ a
      → IsLowest (s.fd t) i
      → IsLowest (set_fd s.fd t i (some a) t) j
      → s.fd t 0 ≡ some x
      → s.fd t 1 ≡ some y
      → run_pipe_files t node a b left right s ≡ some s'
      → Step find root n piped s s'

pub data Reach (find : Find) (root n : ℕ) (piped : Bool) (s : Files) : Files → Type 0 where
  here : Reach find root n piped s s
  next :
      {t u : Files}
      → Reach find root n piped s t
      → Step find root n piped t u
      → Reach find root n piped s u

-- What holds all along: the counts, and without pipes no count too many.
abbrev pub Sound : ℕ → Bool → Files → Type 0
Sound n piped s = (e : ℕ → ℕ) × Held n e s × (piped ≡ false → NoPipes s × ((a : ℕ) → e a ≡ 0))

pub Keeps-Sound :
    (n : ℕ) (piped : Bool) (s s' : Files) (h : Sound n piped s)
    → Keeps n h.0 s s'
    → Sound n piped s'
Keeps-Sound n piped s s' h k =
    (k.0, k.1, λ q. let np = h.2 q in let m = k.2 np.0 in (m.0, λ a. m.1 a ∙ np.1 a))

-- Without pipes a step gives a state with its counts; with them, any counts.
pub Held-Sound :
    (n : ℕ) (piped : Bool) (e : ℕ → ℕ) (s : Files) → piped ≡ true → Held n e s → Sound n piped s
Held-Sound n piped e s q h = (e, h, λ r. absurd (cc (q, r)))
