-- ===== src/Kmt/Sched/Parked.antt =====
-- What a task finds when it goes on: the context and the interrupt switches that it left with.
use os_workbench.Base.{
  ℕ, ◌≡◌, Bool, none, some, arith, update, Bool-cases, Option-cases, inl, inr, sym, ap, ◌∙◌,
}
use mathlib.Core.Path.{subst}
use os_workbench.Kmt.Sched.{
  State, context_save, Pick, chosen, idle, null_read, pick, take_task, switch_to, resumes, hangs,
  context_switch,
}

module _ {C : Type 0} where
  -- Task `t` is saved with context `c` and the switches `n` and `b`.
  pub record Saved (s : State C) (t : ℕ) (c : C) (n : ℕ) (b : Bool) : Type 0 where
    pub context : s.context t ≡ c
    pub ncli : s.saved_ncli t ≡ n
    pub intena : s.saved_intena t ≡ b

  -- A trap saves the task that it interrupts, with the CPU's switches.
  pub save-Saved :
      (cpu t : ℕ) (c : C) (s : State C)
      → s.current cpu ≡ some t
      → Saved (context_save cpu c s) t c (s.ncli cpu) (s.intena cpu)
  unfolding context_save
  save-Saved cpu t c s e = ground (arith, e)

  -- A trap on a CPU that runs another task, or none, leaves it so.
  pub save-keeps :
      (cpu t : ℕ) (c d : C) (n : ℕ) (b : Bool) (s : State C)
      → (s.current cpu ≡ some t → ⊥)
      → Saved s t d n b
      → Saved (context_save cpu c s) t d n b
  unfolding context_save
  save-keeps cpu t c d n b s other v = elim (Option-cases (s.current cpu)) [
    | inl e ↦ ground (arith, e)
    | inr (u, e) ↦ ground (arith, e, v.context, v.ncli, v.intena)
  ]

  switch_to-keeps :
      (cpu t : ℕ) (ic c d : C) (n : ℕ) (b : Bool) (s s' : State C) (p : Pick)
      → Saved s t d n b
      → switch_to ic cpu s p ≡ resumes s' c
      → Saved s' t d n b
  unfolding switch_to take_task
  switch_to-keeps cpu t ic c d n b s s' (chosen u) v e = elim (Bool-cases (s.fenced u)) [
    | inl f ↦
        let q : resumes (take_task cpu u s) (s.context u) ≡ resumes s' c = rw f at e in
        let w : take_task cpu u s ≡ s' = cc q in
        subst (λ x. Saved x t d n b) w
          (record { context = v.context; ncli = v.ncli; intena = v.intena })
    | inr f ↦ let q : hangs ≡ resumes s' c = rw f at e in cc q
  ]
  switch_to-keeps cpu t ic c d n b s s' idle v e =
      let w : record s { current = update s.current cpu none } ≡ s' = cc e in
      subst (λ x. Saved x t d n b) w
        (record { context = v.context; ncli = v.ncli; intena = v.intena })
  switch_to-keeps cpu t ic c d n b s s' null_read v e = cc e

  switch_to-resumes :
      (cpu t : ℕ) (ic c d : C) (n : ℕ) (b : Bool) (s s' : State C) (p : Pick)
      → Saved s t d n b
      → switch_to ic cpu s p ≡ resumes s' c
      → s'.current cpu ≡ some t
      → (c ≡ d) × (s'.ncli cpu ≡ n) × (s'.intena cpu ≡ b)
  unfolding switch_to take_task
  switch_to-resumes cpu t ic c d n b s s' (chosen u) v e r = elim (Bool-cases (s.fenced u)) [
    | inl f ↦
        let q : resumes (take_task cpu u s) (s.context u) ≡ resumes s' c = rw f at e in
        let w : take_task cpu u s ≡ s' = cc q in
        let x : s.context u ≡ c = cc q in
        let k : s'.current cpu ≡ some u = rw (← w) (ground arith) in
        let m : u ≡ t = cc (k, r) in
        (
          sym x ∙ ap s.context m ∙ v.context,
          rw (← w) (ground (arith, m, v.ncli)),
          rw (← w) (ground (arith, m, v.intena)),
        )
    | inr f ↦ let q : hangs ≡ resumes s' c = rw f at e in absurd (cc q)
  ]
  switch_to-resumes cpu t ic c d n b s s' idle v e r =
      let w : record s { current = update s.current cpu none } ≡ s' = cc e in
      let k : s'.current cpu ≡ none = rw (← w) (ground arith) in absurd (cc (k, r))
  switch_to-resumes cpu t ic c d n b s s' null_read v e r = absurd (cc e)

  -- What the CPUs may do while task `t` is switched away: traps of other tasks, and switches.
  pub data Away (t : ℕ) (s : State C) : State C → Type 0 where
    here : Away t s s
    saves :
        {u : State C} (cpu : ℕ) (c : C)
        → Away t s u
        → (u.current cpu ≡ some t → ⊥)
        → Away t s (context_save cpu c u)
    switches :
        {u u' : State C} (cpu : ℕ) (draws : ℕ → ℕ) (ic c : C)
        → Away t s u
        → context_switch ic cpu draws u ≡ resumes u' c
        → Away t s u'

  Away-Saved :
      {t : ℕ} {s u : State C} (d : C) (n : ℕ) (b : Bool)
      → Saved s t d n b
      → Away t s u
      → Saved u t d n b
  unfolding context_switch
  Away-Saved d n b v here = v
  Away-Saved {t} d n b v (saves {u} cpu c a other) =
      save-keeps cpu t c d n b u other (Away-Saved d n b v a)
  Away-Saved {t} d n b v (switches {u} {u'} cpu draws ic c a e) =
      switch_to-keeps cpu t ic c d n b u u' (pick 10000 draws 0 u) (Away-Saved d n b v a) e

  -- A task that a trap interrupts on `cpu` in context `c`, and that a switch takes up again on any CPU
  -- after any traps of other tasks and any switches, goes on in context `c` with the interrupt
  -- switches that `cpu` had.
  pub context_switch-context_save :
      (cpu cpu' t : ℕ) (c x ic : C) (draws : ℕ → ℕ) (s u u' : State C)
      → s.current cpu ≡ some t
      → Away t (context_save cpu c s) u
      → context_switch ic cpu' draws u ≡ resumes u' x
      → u'.current cpu' ≡ some t
      → (x ≡ c) × (u'.ncli cpu' ≡ s.ncli cpu) × (u'.intena cpu' ≡ s.intena cpu)
  unfolding context_switch
  context_switch-context_save cpu cpu' t c x ic draws s u u' e a q r =
      switch_to-resumes cpu' t ic x c (s.ncli cpu) (s.intena cpu) u u' (pick 10000 draws 0 u)
        (Away-Saved c (s.ncli cpu) (s.intena cpu) (save-Saved cpu t c s e) a) q r
