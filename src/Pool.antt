-- ===== src/Pool.antt =====
-- kernel/src/pool.c with the `pool` of kernel/include/common.h: the queue of dead tasks that the
-- scheduler cleans up. A pointer is a number, and 0 is NULL. The lock is held over each whole body,
-- so a call is one atomic step; `enqueue` on a full pool lets go of the lock, yields and tries again,
-- which is the result `none`: the pool is as it was, and the call is still to be made.
pub mod Queue
mod Tests
use os_workbench.Base.{ℕ, ◌+◌, ◌%◌, Option, none, some, List, ◌==◌, if◌then◌else◌, get_or, set}

pub record Pool : Type 0 where
  pub mem : List ℕ
  pub head : ℕ
  pub tail : ℕ

abbrev pub pool_len : ℕ
pool_len = 20

-- The pointer that is returned, and the pool.
pub dequeue : Pool → ℕ × Pool
dequeue p =
    if p.head == p.tail
    then (0, p)
    else (let head = p.head + 1 in
        (get_or p.mem p.head 0, record p { head = if head == pool_len then 0 else head }))

pub enqueue : Pool → ℕ → Option Pool
enqueue p ptr =
    if ((p.tail + 1) % pool_len) == p.head
    then none
    else (let tail = p.tail + 1 in
        some (record p { mem = set p.mem p.tail ptr; tail = if tail == pool_len then 0 else tail }))
