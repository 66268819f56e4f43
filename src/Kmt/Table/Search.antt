-- ===== src/Kmt/Table/Search.antt =====
-- Which slot `add_task` of kernel/src/kmt.c takes, and when it comes back.
use os_workbench.Base.{
  ℕ, zero, suc, ◌+◌, ◌-◌, ◌%◌, ◌<◌, ◌≡◌, refl, ◌≢◌, true, Option, none, some, arith, update,
  Option-cases, inl, inr, ap, ◌∙◌,
}
use os_workbench.Kmt.Table.{Table, search, add_task, exit_task}

-- the slot that the `k`-th further round looks at
abbrev probe : ℕ → ℕ → ℕ
probe pid k = (pid + 1 + k) % 0x40

search-found :
    (fuel k pid : ℕ) (tasks : ℕ → Option ℕ)
    → k < fuel
    → tasks (probe pid k) ≡ none
    → (i : ℕ) × (search fuel tasks pid ≡ some i) × (i < 0x40) × (tasks i ≡ none)
unfolding search
search-found zero k pid tasks h e = absurd (omega arith)
search-found (suc fuel) zero pid tasks h e =
    let f : tasks ((pid + 1) % 0x40) ≡ none = ap tasks (omega arith) ∙ e in
    ((pid + 1) % 0x40, ground (arith, f), omega arith, f)
search-found (suc fuel) (suc k) pid tasks h e = elim (Option-cases (tasks ((pid + 1) % 0x40))) [
  | inl f ↦ ((pid + 1) % 0x40, ground (arith, f), omega arith, f)
  | inr (u, f) ↦
      let r =
        search-found fuel k ((pid + 1) % 0x40) tasks (omega arith) (ap tasks (omega arith) ∙ e) in
      (r.0, ground (arith, f, r.1), r.2, r.3)
]

search_full :
    (fuel pid : ℕ) (tasks : ℕ → Option ℕ)
    → ((i : ℕ) → i < 0x40 → tasks i ≢ none)
    → search fuel tasks pid ≡ none
unfolding search
search_full zero pid tasks h = refl
search_full (suc fuel) pid tasks h = elim (Option-cases (tasks ((pid + 1) % 0x40))) [
  | inl f ↦ absurd (h ((pid + 1) % 0x40) (omega arith) f)
  | inr (u, f) ↦ ground (arith, f, search_full fuel ((pid + 1) % 0x40) tasks h)
]

-- Every task in the table knows its slot.
abbrev pub IsValid : Table → Type 0
IsValid s = (i t : ℕ) → s.tasks i ≡ some t → s.pid t ≡ i

-- With a free slot among the 64, 64 rounds are enough: the task gets a free slot below 64, no other
-- slot changes, its `pid` is that slot, and the table stays valid if the task was not yet in it.
pub add_task-slot :
    (task j : ℕ) (s : Table)
    → s.last_pid < 0x40
    → j < 0x40
    → s.tasks j ≡ none
    → (i : ℕ) × (s' : Table) × (add_task 0x40 task s ≡ some s')
      × (i < 0x40)
      × (s.tasks i ≡ none)
      × (s'.tasks ≡ update s.tasks i (some task))
      × (s'.pid task ≡ i)
      × (IsValid s → ((k : ℕ) → s.tasks k ≢ some task) → IsValid s')
unfolding add_task
add_task-slot task j s hp hj e =
    let r =
      search-found 0x40 ((j + 0x40 - 1 - s.last_pid) % 0x40) s.last_pid s.tasks (omega arith)
        (ap s.tasks (omega arith) ∙ e) in
    let i = r.0 in
    let s' = record s {
      tasks = update s.tasks i (some task);
      last_pid = i;
      pid = update s.pid task i;
    } in
    (
      i,
      s',
      ground (arith, r.1),
      r.2,
      r.3,
      refl,
      ground arith,
      λ v new k t q. ground (arith, v k t, new k),
    )

-- With all 64 slots taken the loop of `add_task` never ends: no number of rounds is enough.
pub add_task_full :
    (fuel task : ℕ) (s : Table)
    → ((i : ℕ) → i < 0x40 → s.tasks i ≢ none)
    → add_task fuel task s ≡ none
unfolding add_task
add_task_full fuel task s h = ground (arith, search_full fuel s.last_pid s.tasks h)

-- In a valid table a task that exits gives back its own slot and no other, is a zombie, is handed to
-- the cleaner exactly if TASK_NOWAIT is set, and leaves the table valid.
pub exit_task-slot :
    (cur i : ℕ) (s : Table)
    → IsValid s
    → s.tasks i ≡ some cur
    → let (s', handed) = exit_task cur s in
      (s'.tasks i ≡ none)
      × ((k : ℕ) → k ≢ i → s'.tasks k ≡ s.tasks k)
      × ((s'.attr cur).zombie ≡ true)
      × (handed ≡ (s.attr cur).nowait)
      × IsValid s'
unfolding exit_task
exit_task-slot cur i s v e = (
  ground (arith, v i cur e),
  λ k ne. ground (arith, v i cur e),
  ground arith,
  refl,
  λ k t q. ground (arith, v k t),
)
