-- ===== src/Vfs/Pipeline.antt =====
-- What `run_pipe_cmd` of kernel/src/shell/runcmd.c makes of the descriptors of the shell and of the
-- tasks on the two sides of a pipe.
use os_workbench.Base.{ℕ, ◌+◌, ◌<◌, ◌≡◌, sym, ap, ◌∙◌, ◌≢◌, Option, none, some, arith}
use os_workbench.Vfs.{Files, Vfile, fd_num, set_fd}
use os_workbench.Vfs.Task.{end_file, move_fd, create_files, run_pipe_files}
use os_workbench.Vfs.Count.{points, count-set_fd, set_fd_self, set_fd_ne, set_fd_out}
use os_workbench.Vfs.Inv.{Held, Held-lose}
use os_workbench.Vfs.Open.{IsLowest}
use os_workbench.Vfs.Share.{create_files-Held, Stays}
use os_workbench.Vfs.Ends.{
  move_fd-Held, move_fd-set, move_fd_ne, move_fd_out, pipe_files-piped, piped, piped-Held, piped_a,
  piped_b, piped_i, piped_j, piped_ne, piped_out,
}

-- A task that is created with the file at `from` moved to `to` has it there, and else the files of the
-- one that creates it.
pub move_create :
    (n cur t to from : ℕ) (e : ℕ → ℕ) (s : Files)
    → Held n e s
    → cur < n
    → t < n
    → t ≢ cur
    → to < fd_num
    → from < fd_num
    → from ≢ to
    → ((i : ℕ) → i < fd_num → s.fd t i ≡ none)
    → (s' : Files) × (create_files (some cur) t (move_fd cur to from s) ≡ some s')
      × Held n (λ c. e c + points (s.fd cur to) c) s'
      × (s'.fd t to ≡ s.fd cur from)
      × ((k : ℕ) → k < fd_num → k ≢ to → k ≢ from → s'.fd t k ≡ s.fd cur k)
      × (s'.fd cur to ≡ s.fd cur from)
      × ((k : ℕ) → k ≢ to → k ≢ from → s'.fd cur k ≡ s.fd cur k)
      × ((u : ℕ) → u ≢ cur → u ≢ t → s'.fd u ≡ s.fd u)
      × Stays s s'
move_create n cur t to from e s h w wt d l m ne free =
    let r =
      create_files-Held n cur t _ (move_fd cur to from s)
        (move_fd-Held n cur to from e s h w l m ne) w wt (λ q. d (sym q))
        (λ i x. ap (λ f. f i) (move_fd_out cur to from s t d) ∙ free i x) in
    (
      r.0,
      r.1,
      r.2,
      r.7.1 to (omega arith) l ∙ move_fd-set cur to from s ne,
      λ k x a b. r.7.1 k (omega arith) x ∙ move_fd_ne cur to from s k a b,
      ap (λ f. f to) (r.7.0 cur (λ q. d (sym q))) ∙ move_fd-set cur to from s ne,
      λ k a b. ap (λ f. f k) (r.7.0 cur (λ q. d (sym q))) ∙ move_fd_ne cur to from s k a b,
      λ u a b. r.7.0 u b ∙ move_fd_out cur to from s u a,
      r.6,
    )

-- A descriptor in use is not the lowest free one.
in_use : (fd : ℕ → Option ℕ) (i k z : ℕ) → IsLowest fd i → fd k ≡ some z → k ≢ i
in_use fd i k z l f q = absurd (cc (f, ap fd q, l.1))

-- The shell's files behind the creation of `left`, with its descriptor 1 given back.
abbrev restored : ℕ → Option ℕ → Files → Files
restored cur y u = record u { fd = set_fd u.fd cur 1 y }

left_side :
    (n cur node a b i j left x y : ℕ) (e : ℕ → ℕ) (s : Files)
    → Held n e (piped cur node a b i j s)
    → (cur < n) × (left < n)
    → left ≢ cur
    → ((k : ℕ) → k < fd_num → s.fd left k ≡ none)
    → b ≢ a
    → IsLowest (s.fd cur) i
    → IsLowest (set_fd s.fd cur i (some a) cur) j
    → s.fd cur 0 ≡ some x
    → s.fd cur 1 ≡ some y
    → let t = piped cur node a b i j s in
      (u : Files) × (create_files (some cur) left (move_fd cur 1 j t) ≡ some u)
      × Held n (λ c. e c + points (some b) c) (restored cur (t.fd cur 1) u)
      × (u.fd left 0 ≡ some x)
      × (u.fd left 1 ≡ some b)
      × ((restored cur (t.fd cur 1) u).fd cur 0 ≡ some x)
      × ((restored cur (t.fd cur 1) u).fd cur 1 ≡ some y)
      × ((restored cur (t.fd cur 1) u).fd cur i ≡ some a)
      × ((o : ℕ) → o ≢ cur → o ≢ left → u.fd o ≡ s.fd o)
      × Stays t u
left_side n cur node a b i j left x y e s h (w, wl) dl fl ba li lj f0 f1 =
    let t = piped cur node a b i j s in
    let i0 = in_use (s.fd cur) i 0 x li f0 in
    let i1 = in_use (s.fd cur) i 1 y li f1 in
    let j0 = in_use _ j 0 x lj (set_fd_ne s.fd cur i 0 (some a) i0 ∙ f0) in
    let j1 = in_use _ j 1 y lj (set_fd_ne s.fd cur i 1 (some a) i1 ∙ f1) in
    let ij = in_use _ j i a lj (set_fd_self s.fd cur i (some a)) in
    let t0 = piped_ne cur node a b i j s 0 i0 j0 ∙ f0 in
    let tj = piped_j cur node a b i j s in
    let u =
      move_create n cur left 1 j e t h w wl dl (omega arith) lj.0 (λ q. j1 (sym q))
        (λ k l. ap (λ f. f k) (piped_out cur node a b i j s left dl) ∙ fl k l) in
    let back = set_fd_ne u.0.fd cur 1 in
    let zero_one : ◌≢◌ {A = ℕ} 0 1 = λ q. absurd (omega arith) in
    (
      u.0,
      u.1,
      Held-lose n _ _ u.0 _ u.2 (λ c. omega (
        arith,
        count-set_fd n cur 1 c u.0.fd (t.fd cur 1) w (omega arith),
        ap (λ o. points o c) (u.5 ∙ tj),
      )),
      u.4 0 (omega arith) zero_one j0 ∙ t0,
      u.3 ∙ tj,
      back 0 (t.fd cur 1) zero_one ∙ u.6 0 zero_one j0 ∙ t0,
      set_fd_self u.0.fd cur 1 (t.fd cur 1) ∙ piped_ne cur node a b i j s 1 i1 j1 ∙ f1,
      back i (t.fd cur 1) (λ q. i1 (sym q))
          ∙ u.6 i (λ q. i1 (sym q)) ij
          ∙ piped_i cur node a b i j s ij,
      λ o l m. u.7 o l m ∙ piped_out cur node a b i j s o l,
      u.8,
    )

-- With descriptors 0 and 1 in use, two others free and two tasks without files, `run_pipe_cmd` creates
-- `left` with descriptor 1 and `right` with descriptor 0 on the same new pipe, and with the shell's
-- files at the other of the two. No pointer dangles, but the file that was at the shell's descriptor 0
-- and the end that `left` writes to are each counted once too often from then on.
pub run_pipe_files_wires :
    (n cur node a b i j left right x y : ℕ) (e : ℕ → ℕ) (s : Files)
    → Held n e s
    → (cur < n) × (left < n) × (right < n)
    → left ≢ cur
    → right ≢ cur
    → right ≢ left
    → ((k : ℕ) → k < fd_num → s.fd left k ≡ none)
    → ((k : ℕ) → k < fd_num → s.fd right k ≡ none)
    → s.heap a ≡ none
    → s.heap b ≡ none
    → b ≢ a
    → IsLowest (s.fd cur) i
    → IsLowest (set_fd s.fd cur i (some a) cur) j
    → s.fd cur 0 ≡ some x
    → s.fd cur 1 ≡ some y
    → (s' : Files) × (run_pipe_files cur node a b left right s ≡ some s')
      × Held n (λ c. e c + points (some b) c + points (some x) c) s'
      × (s'.fd left 0 ≡ some x)
      × (s'.fd left 1 ≡ some b)
      × (s'.fd right 0 ≡ some a)
      × (s'.fd right 1 ≡ some y)
      × (s'.fd cur 0 ≡ some a)
      × (s'.fd cur 1 ≡ some y)
      × ((f : Vfile) × (s'.heap a ≡ some f) × (f.inode ≡ node))
      × ((f : Vfile) × (s'.heap b ≡ some f) × (f.inode ≡ node))
unfolding run_pipe_files
run_pipe_files_wires n cur node a b i j left right x y e s h (w, wl, wr) dl dr drl fl fr p q ba li
      lj f0 f1 =
    let t = piped cur node a b i j s in
    let u =
      left_side n cur node a b i j left x y e s (piped-Held n cur node a b i j e s h w p q ba li lj)
        (w, wl) dl fl ba li lj f0 f1 in
    let s5 = restored cur (t.fd cur 1) u.0 in
    let out : (o : ℕ) → o ≢ cur → s5.fd o ≡ u.0.fd o =
      λ o. set_fd_out u.0.fd cur o 1 (t.fd cur 1) in
    let i0 = in_use (s.fd cur) i 0 x li f0 in
    let i1 = in_use (s.fd cur) i 1 y li f1 in
    let one_zero : ◌≢◌ {A = ℕ} 1 0 = λ q. absurd (omega arith) in
    let v =
      move_create n cur right 0 i _ s5 u.2 w wr dr (omega arith) li.0 (λ q. i0 (sym q))
        (λ k l. ap (λ f. f k) (out right dr ∙ u.8 right dr drl) ∙ fr k l) in
    let keep = v.7 left dl (λ q. drl (sym q)) ∙ out left dl in
    let end_a = u.9 a (end_file node) (piped_a cur node a b i j s ba) in
    let end_b = u.9 b (end_file node) (piped_b cur node a b i j s) in
    let on_a = v.8 a end_a.0 end_a.1 in
    let on_b = v.8 b end_b.0 end_b.1 in
    (
      v.0,
      rw (pipe_files-piped cur node a b i j s li lj, run_pipe_files) (rw (u.1, run_pipe_files) v.1),
      rw u.5 at v.2,
      ap (λ f. f 0) keep ∙ u.3,
      ap (λ f. f 1) keep ∙ u.4,
      v.3 ∙ u.7,
      v.4 1 (omega arith) one_zero i1 ∙ u.6,
      v.5 ∙ u.7,
      v.6 1 one_zero i1 ∙ u.6,
      (on_a.0, on_a.1, on_a.2 ∙ end_a.2),
      (on_b.0, on_b.1, on_b.2 ∙ end_b.2),
    )
