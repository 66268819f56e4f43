-- ===== src/Lib.antt =====
-- Verification of the operating-system workbench: the core of its kernel, and of the runtime library
-- that the kernel stands on.
--
-- The parts. A trap enters `os_trap` (kernel/src/os.c), which calls the handlers in the order that
-- `os_on_irq` keeps. The first saves the interrupted task, and the last but one chooses the next
-- (kernel/src/kmt.c); each reads and writes the task table, which `add_task` and `exit` change. The
-- spinlock and the semaphore of kmt.c stand on the nested interrupt switch of
-- abstract-machine/libs/klib/src/intr.c; a semaphore puts tasks to sleep that the scheduler then passes
-- over. The memory manager (kernel/src/alloc.c) hands out the blocks that all parts live in, the pool
-- (kernel/src/pool.c) holds dead tasks for the cleaner, and the paths of kernel/src/dir.c use the
-- strings of abstract-machine/libs/klib/src/string.c. The shell (kernel/src/shell/parse.c) parses a
-- line in place, and its commands talk through the pipes of kernel/src/pipe.c. The keyboard
-- (kernel/src/devices/input) turns the codes of its keys into events. A terminal
-- (kernel/src/devices/tty/tty.c) keeps what is typed until a line is whole, and keeps and draws what is
-- written. Tasks open files through the descriptors of kernel/src/fs/vfs.c, which `kmt_create`, `exit` and
-- the commands of the shell share and rewire. The ramdisk (kernel/src/devices/ramdisk) keeps bytes by their offset, and
-- kernel/src/yls keeps chains of blocks on it. libco/co.c, beside the
-- kernel, switches between routines of one process.
--
-- The files.
--   Base      shared names; lists, 32-bit and signed numbers, windows of rings, results that may fault
--   Pool      kernel/src/pool.c: `dequeue`, `enqueue`; Queue: the queue that it is
--   Kmt.Intr  klib's intr.c: `_intr_close`, `_intr_open`
--   Kmt.Spin  the spinlock of kernel/src/kmt.c on one CPU; Nest: nested calls; Race: many CPUs
--   Kmt.Sem   the semaphore of kmt.c; Inv, Queue: P and V on a line of tasks; Sleep: who sleeps
--   Kmt.Sched `kmt_context_save` and `kmt_context_switch`; Draw: which task is taken; Exclusive: who may
--             run it; Parked: what it goes on with
--   Kmt.Table `add_task_real` and `exit`; Search: which slot
--   Os        kernel/src/os.c: `os_on_irq`, `os_trap`; Order, Trap
--   Klib      Str: klib's string.c over a memory of bytes; Len, Copy, Compare, Move; Stdlib: its stdlib.c;
--             Stdio: its stdio.c; Text: what a format stands for; Decimal, Number, Convert, Full: that it is
--             put out; Roundtrip: printed and read back; Mutex: its pthread.c under any interleaving
--   Alloc     kernel/src/alloc.c; Cover: the bytes of blocks; Total: requests are served; Heap: any
--             sequence of requests and frees
--   Co        libco/co.c: the pool of routines, and waiting; Inv: what every call keeps; Pool: starts and ends
--   Dir       kernel/src/dir.c; Split, Walk, Cat: joined paths as walks of a stack of layers
--   Pipe      kernel/src/pipe.c: Ring: blocks of bytes in a ring; Drain, Fill, Queue: reads and writes
--   Shell     kernel/src/shell/parse.c: tokens; Parse: the recursive descent; Scan, Ends, Total: it ends,
--             inside the line; Cut: what `parsecmd` leaves
--   Input     kernel/src/devices/input: Keymap: its tables; Ring: the queue of events; Typing: what keys
--             stand for; Strokes, Keydown, Keys: that they do; Keys also: reads
--   Vfs       kernel/src/fs/vfs.c: open files; Task: those of tasks, for kernel/src/kmt.c, pipe.c and
--             shell/runcmd.c; Count, Inv, Open, Close, Became, Exit, Share: how files are counted; Steps,
--             Reach: over any calls; Ends, Pipeline: the two sides of a pipe; Redirect: redirections
--   Disk      kernel/src/devices/ramdisk/ramdisk.c: reads and writes; Access: what is written is read
--   Yls       kernel/src/yls: blocks of a disk; Bits, Alloc: which block is free; Chain, Inside: reading and
--             writing blocks; Init: a fresh disk
--   Tty       kernel/src/devices/tty/tty.c: Screen: the cells and what a byte does to them; Page: the endless
--             page they are a part of; Shows, Steps, Settle, Refine: that they are; Render: the sprites drawn, and kernel/src/devices/video/video.c, which shows them; Draw,
--             Marked, Marks: what the display then shows; Cook: the queue of typed bytes; Line, Typed: typing into
--             it; Read: reading a line; Task: the task that passes events on; Session, Front: lines typed at
--             it
-- The modules named Tests run the definitions on concrete inputs.
--
-- How the code corresponds. A function of the code is a function of its name, without the prefix of its
-- module (`kmt_sem_wait` is `sem_wait`), from the state before to the result and the state after. A
-- body that holds its lock is one step; where the interleaving matters, each access is a step of a
-- relation (Kmt.Spin.Race). Where the code leaves two calls free to cross and only whole ones are
-- modelled (Vfs.Steps; a `kfree` and the other calls of its CPU in Alloc.Heap), the file says so. Words
-- are numbers with the wrap written out. A pointer to a task is a number, or an option where NULL is
-- tested.
--
-- Bounds and fuel. The loops of string.c get one round more than the memory has bytes: a loop that goes
-- on longer has left the memory, which is a fault. `kalloc_real` gets two rounds, as the piece that the
-- first one adds is large enough for the second; `dir_cat` one more than the path has bytes, as every
-- round goes behind a slash. `add_task` is on any fuel; 64 rounds look at every slot. The calls of a
-- pipe nest at most three deep, and get 4 rounds. The loops of the command parser and its nesting get a
-- round more than the line has bytes, as each of their rounds takes a token. `kmt_context_switch` has
-- the bound of the code, 10000 draws. The loop of `tty_read` gets a round for each of the 1024 places of the
-- queue, the digits of a word 11, one more than it has.
-- `find_block` gets a round more than its offset; a chain of n blocks is read in n + 1 rounds.
--
-- Not modelled: how a file system finds and keeps its inodes, the other devices, the commands of the shell,
-- libkvdb and the small tools, which the manifest lists; the boot code and device registers of the abstract
-- machine, below the interface that the kernel uses; benchmarks, demonstration programs and copied libraries. Of kmt.c,
-- `kmt_create` but for the files it shares, `kmt_wait` and the cleaner, whose effect on the locks is a step of Kmt.Sched.Exclusive;
-- of alloc.c, the fence words and counters; of co.c, the stacks and saved registers. What `rand` returns
-- is a parameter of the scheduler. Of stdio.c, the conversion of doubles, and the console.
pub mod Alloc
pub mod Base
pub mod Co
pub mod Dir
pub mod Disk
pub mod Input
pub mod Klib
pub mod Kmt
pub mod Os
pub mod Pipe
pub mod Pool
pub mod Shell
pub mod Tty
pub mod Vfs
pub mod Yls
