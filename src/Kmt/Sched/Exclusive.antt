-- ===== src/Kmt/Sched/Exclusive.antt =====
-- No two CPUs run one task, nor its stack: what the `running` locks of kernel/src/kmt.c are for.
use os_workbench.Base.{
  ℕ, ◌≡◌, refl, ◌≢◌, ◌⊎◌, inl, inr, Bool, true, false, Option, none, some, arith, ◌==◌, update,
  Bool-cases, Option-cases, sym, ==→eq, ◌∙◌,
}
use mathlib.Core.Path.{subst}
use os_workbench.Kmt.Sched.{
  State, let_go, context_save, Pick, chosen, idle, null_read, pick, take_task, resumes, hangs,
  context_switch, switch_to,
}
use os_workbench.Kmt.Sched.Draw.{pick-Ready}

-- The CPU runs the task, or has switched away and may still stand on its stack.
abbrev pub Owns : (current last : ℕ → Option ℕ) → ℕ → ℕ → Type 0
Owns current last cpu t = (current cpu ≡ some t) ⊎ (last cpu ≡ some t)

pub record Inv (current last : ℕ → Option ℕ) (running : ℕ → Bool) : Type 0 where
  pub locked : (c t : ℕ) → Owns current last c t → running t ≡ true
  pub alone : (c d t : ℕ) → Owns current last c t → Owns current last d t → c ≡ d

module _ {current last : ℕ → Option ℕ} {running : ℕ → Bool} (i : Inv current last running)
    (cpu : ℕ) where
  save-Owns : (c t : ℕ) → Owns current (update last cpu (current cpu)) c t → Owns current last c t
  save-Owns c t (inl o) = inl o
  save-Owns c t (inr o) = elim (Bool-cases (c == cpu)) [
    | inl e ↦ inl (ground (arith, e))
    | inr e ↦ inr (ground (arith, e))
  ]

  save_locked :
      (c t : ℕ)
      → Owns current (update last cpu (current cpu)) c t
      → let_go (last cpu) (current cpu) running t ≡ true
  unfolding let_go
  save_locked c t o = elim (Option-cases (last cpu)) [
    | inl e ↦ ground (arith, e, i.locked c t (save-Owns c t o))
    | inr (l, e) ↦
        ground (arith, e, i.locked c t (save-Owns c t o), i.alone c cpu t (save-Owns c t o))
  ]

  save-Inv : Inv current (update last cpu (current cpu)) (let_go (last cpu) (current cpu) running)
  save-Inv = record {
    locked = save_locked;
    alone = λ c d t o p. i.alone c d t (save-Owns c t o) (save-Owns d t p);
  }

  idle-Owns : (c t : ℕ) → Owns (update current cpu none) last c t → Owns current last c t
  idle-Owns c t (inl o) = inl (ground arith)
  idle-Owns c t (inr o) = inr o

  idle-Inv : Inv (update current cpu none) last running
  idle-Inv = record {
    locked = λ c t o. i.locked c t (idle-Owns c t o);
    alone = λ c d t o p. i.alone c d t (idle-Owns c t o) (idle-Owns d t p);
  }

  claim-Inv : (t : ℕ) → Inv current last (update running t true)
  claim-Inv t = record { locked = λ c u o. ground (arith, i.locked c u o); alone = i.alone }

  unclaim-Inv :
      (t : ℕ) → ((c : ℕ) → Owns current last c t → ⊥) → Inv current last (update running t false)
  unclaim-Inv t away = record {
    locked = λ c u o. elim (Bool-cases (u == t)) [
      | inl e ↦ absurd (away c (subst (Owns current last c) (==→eq u t e) o))
      | inr e ↦ ground (arith, e, i.locked c u o)
    ];
    alone = i.alone;
  }

  module _ (t : ℕ) (unlocked : running t ≡ false) where
    take-Owns :
        (c u : ℕ)
        → Owns (update current cpu (some t)) last c u
        → ((c ≡ cpu) × (u ≡ t)) ⊎ ((u ≢ t) × Owns current last c u)
    take-Owns c u (inl o) = elim (Bool-cases (c == cpu)) [
      | inl e ↦ inl (ground (arith, e), ground (arith, e))
      | inr e ↦
          let o' : current c ≡ some u = ground (arith, e) in
          inr (λ q. ground (arith, i.locked c u (inl o')), inl o')
    ]
    take-Owns c u (inr o) = inr (λ q. ground (arith, i.locked c u (inr o)), inr o)

    take_alone :
        (c d u : ℕ)
        → Owns (update current cpu (some t)) last c u
        → Owns (update current cpu (some t)) last d u
        → c ≡ d
    take_alone c d u o p = elim (take-Owns c u o) [
      | inl (ec, eu) ↦ elim (take-Owns d u p) [
        | inl (ed, _) ↦ ec ∙ sym ed
        | inr (ne, _) ↦ absurd (ne eu)
      ]
      | inr (ne, o') ↦ elim (take-Owns d u p) [
        | inl (_, eu) ↦ absurd (ne eu)
        | inr (_, p') ↦ i.alone c d u o' p'
      ]
    ]

    take-Inv : Inv (update current cpu (some t)) last (update running t true)
    take-Inv = record {
      locked = λ c u o. elim (take-Owns c u o) [
        | inl (_, eu) ↦ ground (arith, eu)
        | inr (ne, o') ↦ ground (arith, i.locked c u o')
      ];
      alone = take_alone;
    }

abbrev pub IsSafe : {C : Type 0} → State C → Type 0
IsSafe s = Inv s.current s.last s.running

module _ {C : Type 0} where
  -- What happens to the locks: a trap saves and switches; `claim` is a lock or trylock that wins
  -- elsewhere (`kmt_wait`, `kmt_context_clean`, a command in the background), and `unclaim` its unlock,
  -- of a task that no CPU owns; `elsewhere` leaves the three fields alone.
  pub data Step (s : State C) : State C → Type 0 where
    save : (cpu : ℕ) (c : C) → Step s (context_save cpu c s)
    switch :
        {s' : State C} (cpu : ℕ) (draws : ℕ → ℕ) (idle_context c : C)
        → context_switch idle_context cpu draws s ≡ resumes s' c
        → Step s s'
    claim : (t : ℕ) → s.running t ≡ false → Step s (record s { running = update s.running t true })
    unclaim :
        (t : ℕ)
        → ((cpu : ℕ) → Owns s.current s.last cpu t → ⊥)
        → Step s (record s { running = update s.running t false })
    elsewhere :
        {s' : State C}
        → s'.current ≡ s.current
        → s'.last ≡ s.last
        → s'.running ≡ s.running
        → Step s s'

  pub data Reach (start : State C) : State C → Type 0 where
    begin : Reach start start
    next : {s s' : State C} → Reach start s → Step s s' → Reach start s'

  save-fields :
      (cpu : ℕ) (c : C) (s : State C)
      → ((context_save cpu c s).current ≡ s.current)
        × ((context_save cpu c s).last ≡ update s.last cpu (s.current cpu))
        × ((context_save cpu c s).running ≡ let_go (s.last cpu) (s.current cpu) s.running)
  unfolding context_save
  save-fields cpu c s = elim (Option-cases (s.current cpu)) [
    | inl e ↦ ground (arith, e)
    | inr (t, e) ↦ ground (arith, e)
  ]

  switch_to-IsSafe :
      (cpu : ℕ) (ic c : C) (s s' : State C) (p : Pick)
      → IsSafe s
      → ((t : ℕ) → p ≡ chosen t → s.running t ≡ false)
      → switch_to ic cpu s p ≡ resumes s' c
      → IsSafe s'
  unfolding switch_to take_task
  switch_to-IsSafe cpu ic c s s' (chosen t) i free e = elim (Bool-cases (s.fenced t)) [
    | inl f ↦
        let q : resumes (take_task cpu t s) (s.context t) ≡ resumes s' c = rw f at e in
        let w : take_task cpu t s ≡ s' = cc q in subst IsSafe w (take-Inv i cpu t (free t refl))
    | inr f ↦ let q : hangs ≡ resumes s' c = rw f at e in cc q
  ]
  switch_to-IsSafe cpu ic c s s' idle i free e =
      let w : record s { current = update s.current cpu none } ≡ s' = cc e in
      subst IsSafe w (idle-Inv i cpu)
  switch_to-IsSafe cpu ic c s s' null_read i free e = cc e

  switch-IsSafe :
      (cpu : ℕ) (draws : ℕ → ℕ) (ic c : C) (s s' : State C)
      → IsSafe s
      → context_switch ic cpu draws s ≡ resumes s' c
      → IsSafe s'
  unfolding context_switch
  switch-IsSafe cpu draws ic c s s' i e =
      switch_to-IsSafe cpu ic c s s' (pick 10000 draws 0 s) i
        (λ t q. (pick-Ready 10000 draws 0 t s q).1.unlocked) e

  Step-IsSafe : {s s' : State C} → IsSafe s → Step s s' → IsSafe s'
  Step-IsSafe {s} i (save cpu c) =
      let f = save-fields cpu c s in rw (f.0, f.1, f.2) (save-Inv i cpu)
  Step-IsSafe {s} {s'} i (switch cpu draws ic c e) = switch-IsSafe cpu draws ic c s s' i e
  Step-IsSafe i (claim t free) = claim-Inv i 0 t
  Step-IsSafe i (unclaim t away) = unclaim-Inv i 0 t away
  Step-IsSafe i (elsewhere a b c) = rw (a, b, c) i

  pub Reach-IsSafe : {start s : State C} → IsSafe start → Reach start s → IsSafe s
  Reach-IsSafe i begin = i
  Reach-IsSafe i (next r st) = Step-IsSafe (Reach-IsSafe i r) st

  -- From a state where no CPU owns a task, whatever traps, locks and unlocks follow in whatever
  -- order, an unlock outside the scheduler being of a task that no CPU owns, no two CPUs run one
  -- task, no CPU runs a task on whose stack another may still stand, and the lock of every running
  -- task is held.
  pub Reach-exclusive_run :
      {start s : State C}
      → ((cpu : ℕ) → (start.current cpu ≡ none) × (start.last cpu ≡ none))
      → Reach start s
      → (c d t : ℕ) → s.current c ≡ some t
      → (s.current d ≡ some t) ⊎ (s.last d ≡ some t)
      → (c ≡ d) × (s.running t ≡ true)
  Reach-exclusive_run {start} boot r c d t e o =
      let i = Reach-IsSafe fresh r in (i.alone c d t (inl e) o, i.locked c t (inl e))
    where
      nobody : (cpu u : ℕ) → Owns start.current start.last cpu u → ⊥
      nobody cpu u (inl p) = cc (p, (boot cpu).0)
      nobody cpu u (inr p) = cc (p, (boot cpu).1)

      fresh : IsSafe start
      fresh = record {
        locked = λ cpu u p. absurd (nobody cpu u p);
        alone = λ cpu d' u p q. absurd (nobody cpu u p);
      }
