-- ===== src/Kmt/Tests.antt =====
-- Runs of the locks, the semaphore and the scheduler of kernel/src/kmt.c.
mod Spin
mod Sem
mod Sched
