-- ===== src/Vfs.antt =====
-- The open files of kernel/src/fs/vfs.c: descriptors, the files that they share and how those are
-- counted, with the `open` and `close` of the inodes of kernel/src/fs and kernel/src/pipe.c. A task, an
-- inode and the address of a file are numbers; -1 and NULL are `none` where the code tests for them.
-- `none` in place of a state is a fault: a NULL or freed pointer, a failed `Assert`, or a lock that is
-- never given back. How a file system finds an inode is a parameter.
pub mod Task
pub mod Count
pub mod Inv
pub mod Close
pub mod Open
pub mod Became
pub mod Exit
pub mod Share
pub mod Ends
pub mod Pipeline
pub mod Steps
pub mod Reach
pub mod Redirect
mod Tests
use os_workbench.Base.{
  ℕ, zero, suc, ◌+◌, ◌-◌, ◌/◌, ◌%◌, Bool, true, false, ◌&&◌, not, Option, none, some, List, [], ◌∷◌,
  ◌==◌, if◌then◌else◌, update,
}
use os_workbench.Dir.{starts_with_slash, dir_cat}

abbrev pub fd_num : ℕ
fd_num = 16

abbrev pub o_rdonly : ℕ
o_rdonly = 0x01

abbrev pub o_directory : ℕ
o_directory = 0x08

-- An inode by its `ops`: of a block file system with the `type` and `size` of its node, of a device, of
-- the process file system, or of a pipe with its `open`.
pub data Inode : Type 0 where
  blk : Bool → ℕ → Inode
  dev : Inode
  proc : Inode
  pipe_end : Bool → Inode

pub record Vfile : Type 0 where
  pub offset : ℕ
  pub inode : ℕ
  pub refcnt : ℕ
  pub flags : ℕ
  pub lk : Bool

-- The memory of files and of inodes, and of each task its `fd`, `cur_dir` and `pwd`.
pub record Files : Type 0 where
  pub heap : ℕ → Option Vfile
  pub inodes : ℕ → Inode
  pub fd : ℕ → ℕ → Option ℕ
  pub cur_dir : ℕ → Option ℕ
  pub pwd : ℕ → List ℕ

abbrev pub set_fd : (ℕ → ℕ → Option ℕ) → ℕ → ℕ → Option ℕ → ℕ → ℕ → Option ℕ
set_fd fd task i v = update fd task (update (fd task) i v)

-- The loop of `new_fd_num`, with `n` descriptors still to see.
unfoldable pub free_from : (ℕ → Option ℕ) → ℕ → ℕ → Option ℕ
free_from fd zero i = none
free_from fd (suc n) i =
    let rest = free_from fd n (i + 1) in elim (fd i) [ none ↦ some i | some a ↦ rest ]

unfoldable pub new_fd_num : (ℕ → Option ℕ) → Option ℕ
new_fd_num fd = free_from fd fd_num 0

-- O_WRONLY is set, and O_RDONLY and O_APPEND are not.
abbrev pub truncates : ℕ → Bool
truncates flags = (flags / 2) % 2 == 1 && (not (flags % 2 == 1) && not ((flags / 0x10) % 2 == 1))

-- `blkfs_iopen`, `devfs_iopen` and `procfs_iopen`: the file, and the inode behind it. A pipe has no
-- `open`.
unfoldable pub iopen : Inode → ℕ → ℕ → Option (Vfile × Inode)
iopen (blk true size) i flags =
    some (record { offset = 4; inode = i; refcnt = 1; flags = flags; lk = false }, blk true size)
iopen (blk false size) i flags = some (
  record { offset = 0; inode = i; refcnt = 1; flags = flags; lk = false },
  blk false (if truncates flags then 0 else size),
)
iopen dev i flags =
    some (record { offset = 0; inode = i; refcnt = 1; flags = flags; lk = false }, dev)
iopen proc i flags =
    some (record { offset = 0; inode = i; refcnt = 1; flags = flags; lk = false }, proc)
iopen (pipe_end o) i flags = none

-- The `close` of an inode's `ops`. Those of the file systems hold the file's lock, and with the last
-- reference they return with it held; below 0 the `Assert` of `vfs_close` fails. `pipe_iclose` closes
-- the pipe and counts nothing.
unfoldable pub iclose : Inode → Vfile → Option (Vfile × Inode)
iclose (pipe_end o) file = some (file, pipe_end false)
iclose (blk d size) file =
    if file.lk
    then none
    else if file.refcnt == 0
    then none
    else some (record file { refcnt = file.refcnt - 1; lk = file.refcnt == 1 }, blk d size)
iclose dev file =
    if file.lk
    then none
    else if file.refcnt == 0
    then none
    else some (record file { refcnt = file.refcnt - 1; lk = file.refcnt == 1 }, dev)
iclose proc file =
    if file.lk
    then none
    else if file.refcnt == 0
    then none
    else some (record file { refcnt = file.refcnt - 1; lk = file.refcnt == 1 }, proc)

-- What the `close` of an inode leaves of a file and its inode.
abbrev pub op_done : ℕ → Files → Option (Vfile × Inode) → Option Files
op_done a s none = none
op_done a s (some (file, node)) =
    some (record s { heap = update s.heap a (some file); inodes = update s.inodes file.inode node })

-- The call of the inode's `close` in `vfs_close`.
unfoldable pub close_op : ℕ → ℕ → Files → Option Files
close_op task i s = elim (s.fd task i) [
  | none ↦ none
  | some a ↦ elim (s.heap a) [
    | none ↦ none
    | some file ↦ op_done a s (iclose (s.inodes file.inode) file)
  ]
]

-- What `vfs_close` keeps of a file that `close` left.
abbrev pub kept : Vfile → Option Vfile
kept file = if file.refcnt == 0 then none else some file

-- The rest of `vfs_close`, which reads the count again without the file's lock.
unfoldable pub close_rest : ℕ → ℕ → Files → Option Files
close_rest task i s = elim (s.fd task i) [
  | none ↦ none
  | some a ↦ elim (s.heap a) [
    | none ↦ none
    | some file ↦
        some (record s { heap = update s.heap a (kept file); fd = set_fd s.fd task i none })
  ]
]

-- `vfs_close` with no other task in between. Another close of the same file may fall between its two
-- parts: `close_rest-close_op` of Close has what comes of that.
unfoldable pub vfs_close : ℕ → ℕ → Files → Option Files
vfs_close task i s = elim (close_op task i s) [ none ↦ none | some t ↦ close_rest task i t ]

-- What `find` of a file system answers from an inode, a path and flags: an inode, and the inodes
-- then, as it may create one.
abbrev pub Find : Type 0
Find = (ℕ → Inode) → ℕ → List ℕ → ℕ → Option ℕ × (ℕ → Inode)

-- `vfs_lookup` from `vfs_root` or the task's directory; without a directory it is a fault.
unfoldable pub vfs_lookup : Find → ℕ → ℕ → List ℕ → ℕ → Files → Option (Option ℕ × (ℕ → Inode))
vfs_lookup find vfs_root task path flags s =
    if starts_with_slash path
    then some (find s.inodes vfs_root path flags)
    else elim (s.cur_dir task) [ none ↦ none | some start ↦ some (find s.inodes start path flags) ]

-- The end of `vfs_open_real`: the new file at the address that `pmm->alloc` gave.
abbrev pub opened : ℕ → ℕ → ℕ → Files → Option (Vfile × Inode) → Option (Option ℕ × Files)
opened task i addr s none = none
opened task i addr s (some (file, node)) = some (
  some i,
  record s {
    heap = update s.heap addr (some file);
    inodes = update s.inodes file.inode node;
    fd = set_fd s.fd task i (some addr);
  },
)

abbrev pub open_found :
    ℕ → ℕ → ℕ → ℕ → Files → Option (Option ℕ × (ℕ → Inode)) → Option (Option ℕ × Files)
open_found task i addr flags s none = none
open_found task i addr flags s (some (none, inodes)) = some (none, record s { inodes = inodes })
open_found task i addr flags s (some (some k, inodes)) =
    opened task i addr (record s { inodes = inodes }) (iopen (inodes k) k flags)

-- `vfs_open`: the descriptor, or `none` for -1, and the state.
unfoldable pub vfs_open : Find → ℕ → ℕ → ℕ → List ℕ → ℕ → Files → Option (Option ℕ × Files)
vfs_open find vfs_root addr task path flags s = elim (new_fd_num (s.fd task)) [
  | none ↦ none
  | some i ↦ open_found task i addr flags s (vfs_lookup find vfs_root task path flags s)
]

abbrev pub moved : ℕ → Files → (ℕ → Inode) → ℕ → Option (List ℕ) → Option (Bool × Files)
moved task s inodes next none = none
moved task s inodes next (some pwd) = some (
  true,
  record s {
    inodes = inodes;
    cur_dir = update s.cur_dir task (some next);
    pwd = update s.pwd task pwd;
  },
)

abbrev pub chdir_found :
    ℕ → List ℕ → Files → Option (Option ℕ × (ℕ → Inode)) → Option (Bool × Files)
chdir_found task path s none = none
chdir_found task path s (some (none, inodes)) = some (false, record s { inodes = inodes })
chdir_found task path s (some (some next, inodes)) =
    moved task s inodes next (dir_cat (s.pwd task) path)

-- `vfs_chdir`: whether it went there, and the state.
unfoldable pub vfs_chdir : Find → ℕ → ℕ → List ℕ → Files → Option (Bool × Files)
vfs_chdir find vfs_root task path s =
    chdir_found task path s (vfs_lookup find vfs_root task path (o_rdonly + o_directory) s)
