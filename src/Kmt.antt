-- ===== src/Kmt.antt =====
-- The kernel's multithreading module, kernel/src/kmt.c, with the interrupt switch of
-- abstract-machine/libs/klib/src/intr.c that it stands on. `Intr` is the nested interrupt switch,
-- `Spin` the re-entrant spinlock, `Sem` the semaphore, `Sched` the scheduler, `Table` the task table.
pub mod Intr
pub mod Spin
pub mod Task
pub mod Sem
pub mod Sched
pub mod Table
mod Tests
