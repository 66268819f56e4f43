-- ===== src/Kmt/Task.antt =====
-- The attribute word of a `task_t` (kernel/include/common.h). The kernel reads and writes it by the
-- four one-bit masks only, so the word is its four bits; TASK_RUNABLE is the word with no bit set.
use os_workbench.Base.{Bool, false, ◌||◌}

pub record Attr : Type 0 where
  pub sleep : Bool
  pub running : Bool
  pub zombie : Bool
  pub nowait : Bool

abbrev pub runnable : Attr
runnable = record { sleep = false; running = false; zombie = false; nowait = false }

-- `attr & ~TASK_NOWAIT`, as a test.
abbrev pub blocked : Attr → Bool
blocked a = a.sleep || a.running || a.zombie
