-- ===== src/Kmt/Table.antt =====
-- The task table of kernel/src/kmt.c: `add_task`, and what `exit` does to it. A task is a number.
pub mod Search
use os_workbench.Base.{
  ℕ, zero, suc, ◌+◌, ◌%◌, Option, none, some, ◌==◌, if◌then◌else◌, update, Bool, true, false,
}
use os_workbench.Kmt.Task.{Attr}

-- `tasks`, the static `pid` of `add_task_real`, and `pid` and `attr` of each task.
pub record Table : Type 0 where
  pub tasks : ℕ → Option ℕ
  pub last_pid : ℕ
  pub pid : ℕ → ℕ
  pub attr : ℕ → Attr

-- `do { ++pid; pid&=0x3f; } while(tasks[pid]);` on fuel, from the last pid; `none` is out of fuel.
unfoldable pub search : ℕ → (ℕ → Option ℕ) → ℕ → Option ℕ
search zero tasks pid = none
search (suc fuel) tasks pid =
    let next = (pid + 1) % 0x40 in
    let more = search fuel tasks next in elim (tasks next) [ none ↦ some next | some _ ↦ more ]

-- `add_task_real`, with the table's lock held.
unfoldable pub add_task : ℕ → ℕ → Table → Option Table
add_task fuel task s = elim (search fuel s.tasks s.last_pid) [
  | none ↦ none
  | some pid ↦ some (record s {
    tasks = update s.tasks pid (some task);
    last_pid = pid;
    pid = update s.pid task pid;
  })
]

-- `exit` of task `cur`, behind the closing of its files: it is a zombie, its slot is given back, and
-- with TASK_NOWAIT set it is handed to the cleaner (the second component).
unfoldable pub exit_task : ℕ → Table → Table × Bool
exit_task cur s = (
  record s {
    tasks = update s.tasks (s.pid cur) none;
    attr = update s.attr cur (record (s.attr cur) { zombie = true });
  },
  (s.attr cur).nowait,
)
