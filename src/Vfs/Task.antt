-- ===== src/Vfs/Task.antt =====
-- The open files of tasks: what `kmt_create` and `exit` of kernel/src/kmt.c do to them, the two
-- descriptors that `pipe` of kernel/src/pipe.c makes, and how kernel/src/shell/runcmd.c changes them for
-- a redirection and around the two sides of a pipe.
use os_workbench.Base.{
  ℕ, zero, suc, ◌+◌, true, false, Option, none, some, List, [], ◌∷◌, ◌==◌, if◌then◌else◌, update,
}
use os_workbench.Dir.{slash}
use os_workbench.Vfs.{Files, Vfile, Find, fd_num, set_fd, new_fd_num, vfs_open, vfs_close, pipe_end}

-- The loop of `kmt_create` over the descriptors of `cur`, `n` of them still to see.
unfoldable pub inherit : ℕ → ℕ → ℕ → ℕ → Files → Option Files
inherit zero i cur task s = some s
inherit (suc n) i cur task s = elim (s.fd cur i) [
  | none ↦ inherit n (i + 1) cur task s
  | some a ↦ elim (s.heap a) [
    | none ↦ none
    | some file ↦ elim file.lk [
      | true ↦ none
      | false ↦ inherit n (i + 1) cur task (record s {
        heap = update s.heap a (some (record file { refcnt = file.refcnt + 1; lk = false }));
        fd = set_fd s.fd task i (some a);
      })
    ]
  ]
]

-- The task is written anew, with no files and no directory.
abbrev pub blank : ℕ → Files → Files
blank task s = record s {
  fd = update s.fd task (λ _. none);
  cur_dir = update s.cur_dir task none;
  pwd = update s.pwd task (slash ∷ []);
}

-- The files of `kmt_create`, by task `cur` or by none.
unfoldable pub create_files : Option ℕ → ℕ → Files → Option Files
create_files none task s = some (blank task s)
create_files (some cur) task s = inherit fd_num 0 cur task (record (blank task s) {
  cur_dir = update s.cur_dir task (s.cur_dir cur);
  pwd = update s.pwd task (s.pwd cur);
})

-- The loop of `exit` over the descriptors, `n` of them still to see.
unfoldable pub close_from : ℕ → ℕ → ℕ → Files → Option Files
close_from zero i cur s = some s
close_from (suc n) i cur s = elim (s.fd cur i) [
  | none ↦ close_from n (i + 1) cur s
  | some a ↦ elim (vfs_close cur i s) [ none ↦ none | some t ↦ close_from n (i + 1) cur t ]
]

unfoldable pub exit_files : ℕ → Files → Option Files
exit_files cur s = close_from fd_num 0 cur s

-- One round of the loop of `pipe`: a file at `addr` on the pipe's inode. With no free descriptor the
-- code writes to `fd[-1]`, which is a fault here.
abbrev pub end_file : ℕ → Vfile
end_file node = record { offset = 0; inode = node; refcnt = 1; flags = 511; lk = false }

abbrev pub with_end : ℕ → ℕ → ℕ → ℕ → Files → Files
with_end cur i node addr s = record s {
  heap = update s.heap addr (some (end_file node));
  fd = set_fd s.fd cur i (some addr);
}

unfoldable pub pipe_file : ℕ → ℕ → ℕ → Files → Option (ℕ × Files)
pipe_file cur node addr s = elim (new_fd_num (s.fd cur)) [
  | none ↦ none
  | some i ↦ some (i, with_end cur i node addr s)
]

-- `pipe`: both descriptors, with the memory for the inode and the two files.
unfoldable pub pipe_files : ℕ → ℕ → ℕ → ℕ → Files → Option (ℕ × ℕ × Files)
pipe_files cur node a b s =
    elim (pipe_file cur node a (record s { inodes = update s.inodes node (pipe_end true) })) [
      | none ↦ none
      | some (i, t) ↦ elim (pipe_file cur node b t) [ none ↦ none | some (j, u) ↦ some (i, j, u) ]
    ]

-- `current->fd[to]=current->fd[from]; current->fd[from]=NULL;`
abbrev pub move_fd : ℕ → ℕ → ℕ → Files → Files
move_fd cur to from s = record s { fd = set_fd (set_fd s.fd cur to (s.fd cur from)) cur from none }

-- The files of `run_pipe_cmd`, up to the first `kmt->wait`: `cur` makes a pipe and creates the tasks
-- `left` and `right`.
unfoldable pub run_pipe_files : ℕ → ℕ → ℕ → ℕ → ℕ → ℕ → Files → Option Files
run_pipe_files cur node a b left right s = elim (pipe_files cur node a b s) [
  | none ↦ none
  | some (i, j, t) ↦ elim (create_files (some cur) left (move_fd cur 1 j t)) [
    | none ↦ none
    | some u ↦
        create_files (some cur) right
          (move_fd cur 0 i (record u { fd = set_fd u.fd cur 1 (t.fd cur 1) }))
  ]
]

-- What `run_redir_cmd` comes to: the command runs with these files, or the task exits.
pub data Redirected : Type 0 where
  runs : Files → Redirected
  exits : Files → Redirected
  faults : Redirected

abbrev pub redirected : ℕ → Option (Option ℕ × Files) → Redirected
redirected i none = faults
redirected i (some (none, s)) = exits s
redirected i (some (some j, s)) = if j == i then runs s else exits s

-- `run_redir_cmd` of descriptor `i` to the path `dest`, which `to_absolute` made.
unfoldable pub run_redir : Find → ℕ → ℕ → ℕ → ℕ → List ℕ → ℕ → Files → Redirected
run_redir find vfs_root addr task i dest mode s = elim (vfs_close task i s) [
  | none ↦ faults
  | some t ↦ redirected i (vfs_open find vfs_root addr task dest mode t)
]
