-- ===== src/Kmt/Sched/Draw.antt =====
-- Which task the loop of draws in `kmt_context_switch_real` takes.
use os_workbench.Base.{
  ℕ, zero, suc, ◌+◌, ◌%◌, ◌<◌, ◌≡◌, true, false, ◌||◌, some, arith, Bool-cases, Option-cases, inl,
  inr,
}
use mathlib.Core.Path.{subst}
use os_workbench.Kmt.Task.{blocked}
use os_workbench.Kmt.Sched.{State, chosen, pick}

add_step : (i j : ℕ) → i + suc j ≡ i + 1 + j
add_step i j = omega arith

module _ {C : Type 0} where
  -- Task `t` stands in the slot of the draw, may run, and runs nowhere.
  pub record Ready (s : State C) (draw t : ℕ) : Type 0 where
    pub slot : s.tasks (draw % 0x40) ≡ some t
    pub awake : blocked (s.attr t) ≡ false
    pub unlocked : s.running t ≡ false

  -- The draw falls on a task that may not be taken.
  pub record Passed (s : State C) (draw : ℕ) : Type 0 where
    pub task : ℕ
    pub slot : s.tasks (draw % 0x40) ≡ some task
    pub refused : (blocked (s.attr task) || s.running task) ≡ true

  -- The loop takes the task of the first draw that falls on a ready one: the draws before it fall on
  -- tasks that are blocked or run, and fewer than `cnt - 1` of them are made.
  pub pick-first :
      (cnt : ℕ) (draws : ℕ → ℕ) (i k t : ℕ) (s : State C)
      → ((j : ℕ) → j < k → Passed s (draws (i + j)))
      → Ready s (draws (i + k)) t
      → k + 1 < cnt
      → pick cnt draws i s ≡ chosen t
  unfolding pick
  pick-first zero draws i k t s before r h = absurd (omega arith)
  pick-first (suc cnt) draws i zero t s before r h =
      let e : i + 0 ≡ i = omega arith in
      let slot = rw e at (r.slot) in ground (arith, slot, r.awake, r.unlocked)
  pick-first (suc cnt) draws i (suc k) t s before r h =
      let e : i + 0 ≡ i = omega arith in
      let p = before 0 (omega arith) in
      let slot = rw e at (p.slot) in
      ground (
        arith,
        slot,
        p.refused,
        pick-first cnt draws (i + 1) k t s
            (λ j l. subst (λ x. Passed s (draws x)) (add_step i j) (before (suc j) (omega arith)))
            (subst (λ x. Ready s (draws x) t) (add_step i k) r) (omega arith),
      )

  -- What the loop takes was drawn, stands in the table, may run, and runs on no CPU.
  pub pick-Ready :
      (cnt : ℕ) (draws : ℕ → ℕ) (i t : ℕ) (s : State C)
      → pick cnt draws i s ≡ chosen t
      → (k : ℕ) × Ready s (draws k) t
  unfolding pick
  pick-Ready zero draws i t s e = absurd (ground arith)
  pick-Ready (suc cnt) draws i t s e = elim (Option-cases (s.tasks (draws i % 0x40))) [
    | inl n ↦ absurd (ground (arith, n))
    | inr (u, slot) ↦ elim (Bool-cases (blocked (s.attr u) || s.running u)) [
      | inl bad ↦ pick-Ready cnt draws (i + 1) t s (ground (arith, slot, bad))
      | inr good ↦ (
        i,
        record {
          slot = ground (arith, slot, good);
          awake = ground (arith, slot, good);
          unlocked = ground (arith, slot, good);
        },
      )
    ]
  ]
