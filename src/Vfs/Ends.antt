-- ===== src/Vfs/Ends.antt =====
-- The two ends of a new pipe, and moves from one descriptor to another.
use os_workbench.Base.{
  ℕ, ◌+◌, ◌<◌, ◌≡◌, refl, sym, ap, ◌∙◌, ◌≢◌, true, none, some, update, update_self, update_ne,
  arith,
}
use os_workbench.Vfs.{Files, pipe_end, fd_num, set_fd}
use os_workbench.Vfs.Task.{pipe_files, end_file, with_end, move_fd}
use os_workbench.Vfs.Count.{points, count-set_fd, set_fd_self, set_fd_ne, set_fd_out}
use os_workbench.Vfs.Inv.{Held, Held-lose}
use os_workbench.Vfs.Open.{IsLowest, pipe_file-lowest, with_end-Held}

-- A move loses the pointer at the place that it goes to.
pub move_fd-Held :
    (n t to from : ℕ) (e : ℕ → ℕ) (s : Files)
    → Held n e s
    → t < n
    → to < fd_num
    → from < fd_num
    → from ≢ to
    → Held n (λ c. e c + points (s.fd t to) c) (move_fd t to from s)
move_fd-Held n t to from e s h w l m ne = Held-lose n e _ s _ h (λ c. omega (
  arith,
  count-set_fd n t to c s.fd (s.fd t from) w l,
  count-set_fd n t from c (set_fd s.fd t to (s.fd t from)) none w m,
  ap (λ o. points o c) (set_fd_ne s.fd t to from (s.fd t from) ne),
))

-- What `pipe` makes, at the lowest two free descriptors.
abbrev pub piped : ℕ → ℕ → ℕ → ℕ → ℕ → ℕ → Files → Files
piped cur node a b i j s =
    with_end cur j node b
      (with_end cur i node a (record s { inodes = update s.inodes node (pipe_end true) }))

pub pipe_files-piped :
    (cur node a b i j : ℕ) (s : Files)
    → IsLowest (s.fd cur) i
    → IsLowest (set_fd s.fd cur i (some a) cur) j
    → pipe_files cur node a b s ≡ some (i, j, piped cur node a b i j s)
unfolding pipe_files
pipe_files-piped cur node a b i j s l m =
    let s1 = record s { inodes = update s.inodes node (pipe_end true) } in
    rw (pipe_file-lowest cur a node i s1 l, pipe_files)
      (rw (pipe_file-lowest cur b node j (with_end cur i node a s1) m, pipe_files) refl)

pub piped-Held :
    (n cur node a b i j : ℕ) (e : ℕ → ℕ) (s : Files)
    → Held n e s
    → cur < n
    → s.heap a ≡ none
    → s.heap b ≡ none
    → b ≢ a
    → IsLowest (s.fd cur) i
    → IsLowest (set_fd s.fd cur i (some a) cur) j
    → Held n e (piped cur node a b i j s)
piped-Held n cur node a b i j e s h w p q ne l m =
    let s1 = record s { inodes = update s.inodes node (pipe_end true) } in
    with_end-Held n cur b node j e (with_end cur i node a s1)
      (with_end-Held n cur a node i e s1 (record { counted = h.counted; live = h.live }) w p l) w
      (update_ne s.heap a b (some (end_file node)) ne ∙ q) m

module _ (cur node a b i j : ℕ) (s : Files) where
  pub piped_j : (piped cur node a b i j s).fd cur j ≡ some b
  piped_j = set_fd_self (set_fd s.fd cur i (some a)) cur j (some b)

  pub piped_i : i ≢ j → (piped cur node a b i j s).fd cur i ≡ some a
  piped_i ne =
      set_fd_ne (set_fd s.fd cur i (some a)) cur j i (some b) ne ∙ set_fd_self s.fd cur i (some a)

  pub piped_ne : (k : ℕ) → k ≢ i → k ≢ j → (piped cur node a b i j s).fd cur k ≡ s.fd cur k
  piped_ne k l m =
      set_fd_ne (set_fd s.fd cur i (some a)) cur j k (some b) m ∙ set_fd_ne s.fd cur i k (some a) l

  pub piped_a : b ≢ a → (piped cur node a b i j s).heap a ≡ some (end_file node)
  piped_a ne =
      update_ne (update s.heap a (some (end_file node))) b a (some (end_file node))
        (λ q. ne (sym q))
      ∙ update_self s.heap a (some (end_file node))

  pub piped_b : (piped cur node a b i j s).heap b ≡ some (end_file node)
  piped_b = update_self (update s.heap a (some (end_file node))) b (some (end_file node))

  pub piped_out : (u : ℕ) → u ≢ cur → (piped cur node a b i j s).fd u ≡ s.fd u
  piped_out u ne =
      set_fd_out (set_fd s.fd cur i (some a)) cur u j (some b) ne
      ∙ set_fd_out s.fd cur u i (some a) ne

module _ (cur to from : ℕ) (s : Files) where
  pub move_fd-set : from ≢ to → (move_fd cur to from s).fd cur to ≡ s.fd cur from
  move_fd-set ne =
      set_fd_ne (set_fd s.fd cur to (s.fd cur from)) cur from to none (λ q. ne (sym q))
      ∙ set_fd_self s.fd cur to (s.fd cur from)

  pub move_fd_ne : (k : ℕ) → k ≢ to → k ≢ from → (move_fd cur to from s).fd cur k ≡ s.fd cur k
  move_fd_ne k a b =
      set_fd_ne (set_fd s.fd cur to (s.fd cur from)) cur from k none b
      ∙ set_fd_ne s.fd cur to k (s.fd cur from) a

  pub move_fd_out : (u : ℕ) → u ≢ cur → (move_fd cur to from s).fd u ≡ s.fd u
  move_fd_out u a =
      set_fd_out (set_fd s.fd cur to (s.fd cur from)) cur u from none a
      ∙ set_fd_out s.fd cur u to (s.fd cur from) a
