-- ===== src/Vfs/Tests.antt =====
-- Open files run on small states of three tasks.
use os_workbench.Base.{
  ℕ, zero, suc, ◌+◌, ◌<◌, ◌≡◌, refl, ◌≢◌, true, false, Option, none, some, List, [], ◌∷◌, arith,
}
use os_workbench.Dir.{slash}
use os_workbench.Vfs.{
  dev, Files, Vfile, Find, fd_num, set_fd, free_from, new_fd_num, iopen, iclose, vfs_open,
  vfs_close, close_op, close_rest, vfs_lookup,
}
use os_workbench.Vfs.Task.{
  inherit, create_files, exit_files, run_pipe_files, run_redir, runs, exits,
}
use os_workbench.Vfs.Count.{count, refs, points}
use os_workbench.Vfs.Inv.{Held}
use os_workbench.Vfs.Steps.{Reach, here, next, opens, closes, creates, Sound}
use os_workbench.Vfs.Reach.{Reach-counted, Reach-closes, Reach-Sound, IsEmpty-Sound}
use os_workbench.Vfs.Pipeline.{run_pipe_files_wires}
use os_workbench.Vfs.Redirect.{run_redir_lower}

abbrev empty : Files
empty = record {
  heap = λ _. none;
  inodes = λ _. dev;
  fd = λ _ _. none;
  cur_dir = λ _. none;
  pwd = λ _. slash ∷ [];
}

-- Every path leads to inode 1.
abbrev to_one : Find
to_one inodes start path flags = (some 1, inodes)

abbrev tty_path : List ℕ
tty_path = slash ∷ b't' ∷ []

abbrev or_empty : Option Files → Files
or_empty none = empty
or_empty (some s) = s

abbrev after_open : Option (Option ℕ × Files) → Files
after_open none = empty
after_open (some (r, s)) = s

-- Task 0 opens a file, creates task 1, and closes its own descriptor.
abbrev one_open : Files
one_open = after_open (vfs_open to_one 0 5 0 tty_path 7 empty)

abbrev two_tasks : Files
two_tasks = or_empty (create_files (some 0) 1 one_open)

abbrev one_left : Files
one_left = or_empty (vfs_close 0 0 two_tasks)

one_left-Reach : Reach to_one 0 3 false empty one_left
unfolding vfs_open vfs_close close_op close_rest create_files new_fd_num free_from vfs_lookup iopen
    iclose inherit
one_left-Reach =
    next
      (next (next here (opens 0 5 7 tty_path (some 0) (omega arith) refl refl))
        (creates 0 1 (omega arith) (omega arith) (λ q. absurd (omega arith)) (λ i l. refl) refl))
      (closes 0 0 5 (omega arith) refl refl)

-- The file of two descriptors has lost one of them, and its count says so.
one_left_refs : refs (one_left.heap 5) ≡ 1
unfolding vfs_open vfs_close close_op close_rest create_files new_fd_num free_from vfs_lookup iopen
    iclose inherit
one_left_refs = refl

Reach-counted_example :
    (count 3 one_left.fd 5 ≡ refs (one_left.heap 5))
    × (count 3 one_left.fd 5 ≡ 0 → one_left.heap 5 ≡ none)
Reach-counted_example =
    Reach-counted to_one 0 3 empty one_left (λ inodes start flags path h. h)
      ((λ t i. refl), (λ a. refl)) (λ k. refl) one_left-Reach 5

one_left_open : one_left.fd 1 0 ≡ some 5
unfolding vfs_open vfs_close close_op close_rest create_files new_fd_num free_from vfs_lookup iopen
    iclose inherit
one_left_open = refl

Reach-closes_example :
    ((file : Vfile) × (one_left.heap 5 ≡ some file) × (file.lk ≡ false))
    × ((u : Files) × (vfs_close 1 0 one_left ≡ some u) × (u.fd ≡ set_fd one_left.fd 1 0 none))
    × ((u : Files) × (exit_files 1 one_left ≡ some u)
        × ((k : ℕ) → k < fd_num → u.fd 1 k ≡ none)
        × ((o : ℕ) → o ≢ 1 → u.fd o ≡ one_left.fd o))
Reach-closes_example =
    Reach-closes to_one 0 3 1 0 5 false empty one_left (λ inodes start flags path h. h)
      ((λ t i. refl), (λ a. refl)) (λ k. refl) one_left-Reach (omega arith) one_left_open

-- A shell with descriptors 0 and 1.
abbrev two_open : Files
two_open = after_open (vfs_open to_one 0 6 0 tty_path 7 one_open)

two_open-Sound : Sound 3 true two_open
unfolding vfs_open vfs_close close_op close_rest create_files new_fd_num free_from vfs_lookup iopen
    iclose inherit
two_open-Sound =
    Reach-Sound to_one 0 3 true (λ inodes start flags path h. h)
      (IsEmpty-Sound 3 true empty ((λ t i. refl), (λ a. refl)) (λ k. refl))
      (next (next here (opens 0 5 7 tty_path (some 0) (omega arith) refl refl))
        (opens 0 6 7 tty_path (some 1) (omega arith) refl refl))

two_used : (j : ℕ) → j < 2 → two_open.fd 0 j ≢ none
unfolding vfs_open new_fd_num free_from vfs_lookup iopen
two_used zero l q = absurd (cc q)
two_used (suc zero) l q = absurd (cc q)
two_used (suc (suc j)) l q = absurd (omega arith)

three_used : (j : ℕ) → j < 3 → set_fd two_open.fd 0 2 (some 7) 0 j ≢ none
unfolding vfs_open new_fd_num free_from vfs_lookup iopen
three_used zero l q = absurd (cc q)
three_used (suc zero) l q = absurd (cc q)
three_used (suc (suc zero)) l q = absurd (cc q)
three_used (suc (suc (suc j))) l q = absurd (omega arith)

run_pipe_files_wires_example :
    (s' : Files) × (run_pipe_files 0 9 7 8 1 2 two_open ≡ some s')
    × Held 3 (λ c. two_open-Sound.0 c + points (some 8) c + points (some 5) c) s'
    × (s'.fd 1 0 ≡ some 5)
    × (s'.fd 1 1 ≡ some 8)
    × (s'.fd 2 0 ≡ some 7)
    × (s'.fd 2 1 ≡ some 6)
    × (s'.fd 0 0 ≡ some 7)
    × (s'.fd 0 1 ≡ some 6)
    × ((f : Vfile) × (s'.heap 7 ≡ some f) × (f.inode ≡ 9))
    × ((f : Vfile) × (s'.heap 8 ≡ some f) × (f.inode ≡ 9))
unfolding vfs_open new_fd_num free_from vfs_lookup iopen
run_pipe_files_wires_example =
    run_pipe_files_wires 3 0 9 7 8 2 3 1 2 5 6 two_open-Sound.0 two_open two_open-Sound.1
      (omega arith) (λ q. absurd (omega arith)) (λ q. absurd (omega arith))
      (λ q. absurd (omega arith)) (λ k l. refl) (λ k l. refl) refl refl (λ q. absurd (omega arith))
      (omega arith, refl, two_used) (omega arith, refl, three_used) refl refl

-- The state in which the shell's descriptor 1 has been closed.
abbrev one_closed : Files
one_closed = or_empty (vfs_close 0 1 two_open)

run_redir_lower_example :
    (((m : ℕ) → m < 1 → two_open.fd 0 m ≢ none)
      → (s' : Files) × (run_redir to_one 0 8 0 1 tty_path 2 two_open ≡ runs s')
        × (s'.fd 0 1 ≡ some 8)
        × (s'.heap 8 ≡ some (record { offset = 0; inode = 1; refcnt = 1; flags = 2; lk = false }))
        × ◌≡◌ {A = ℕ} 1 1
        × ((m : ℕ) → m ≢ 1 → s'.fd 0 m ≡ two_open.fd 0 m)
        × ((o : ℕ) → o ≢ 0 → s'.fd o ≡ two_open.fd o))
    × ((m : ℕ)
        → m < 1
        → two_open.fd 0 m ≡ none
        → (s' : Files) × (run_redir to_one 0 8 0 1 tty_path 2 two_open ≡ exits s'))
unfolding vfs_open vfs_close close_op close_rest new_fd_num free_from vfs_lookup iopen iclose
run_redir_lower_example =
    run_redir_lower to_one 0 3 8 0 1 1 6 2 tty_path two_open-Sound.0 two_open one_closed
      one_closed.inodes (record { offset = 0; inode = 1; refcnt = 1; flags = 2; lk = false }) dev
      two_open-Sound.1 (omega arith) refl refl refl refl
