-- ===== src/Os/Trap.antt =====
-- A trap, `os_trap` of kernel/src/os.c, with the scheduler's handlers that `kmt_init` of
-- kernel/src/kmt.c registers before all others.
use os_workbench.Base.{ℕ, ◌≡◌, refl, true, false, none, some, List, [], ◌∷◌, ◌++◌, arith, All, ap}
use os_workbench.Base.Int.{ltb_ℤ}
use os_workbench.Os.{Irq, int_max, int_min, event_null, on_irq, call, dispatch, trap}

module _ {C S : Type 0} where
  -- Registrations in their order.
  unfoldable pub register : List (Irq C S) → List (Irq C S) → List (Irq C S)
  register [] ps = ps
  register (h ∷ hs) ps = register hs (on_irq h ps)

  -- The list with the scheduler's three handlers, and others between the first and the last two.
  abbrev pub around : Irq C S → List (Irq C S) → Irq C S → Irq C S → List (Irq C S)
  around save mid switch clean = save ∷ (mid ++ (switch ∷ clean ∷ []))

  on_irq-append :
      (h p : Irq C S) (mid ps : List (Irq C S))
      → ltb_ℤ h.seq p.seq ≡ true
      → on_irq h (mid ++ (p ∷ ps)) ≡ on_irq h mid ++ (p ∷ ps)
  unfolding on_irq
  on_irq-append h p [] ps lt = rw lt
  on_irq-append h p (q ∷ mid) ps lt = ground (arith, on_irq-append h p mid ps lt)

  -- Neither first nor last: the numbers that the devices use.
  abbrev pub Between : Irq C S → Type 0
  Between h = (ltb_ℤ h.seq int_min ≡ false) × (ltb_ℤ h.seq int_max ≡ true)

  on_irq-around :
      (h save switch clean : Irq C S) (mid : List (Irq C S))
      → save.seq ≡ int_min
      → switch.seq ≡ int_max
      → Between h
      → on_irq h (around save mid switch clean) ≡ around save (on_irq h mid) switch clean
  unfolding on_irq
  on_irq-around h save switch clean mid a b m =
      let first : ltb_ℤ h.seq save.seq ≡ false = rw a (m.0) in
      rw first (ap (λ t. save ∷ t) (on_irq-append h switch mid (clean ∷ []) (rw b (m.1))))

  register-around :
      (hs : List (Irq C S)) (save switch clean : Irq C S) (mid : List (Irq C S))
      → save.seq ≡ int_min
      → switch.seq ≡ int_max
      → All Between hs
      → register hs (around save mid switch clean) ≡ around save (register hs mid) switch clean
  unfolding register
  register-around [] save switch clean mid a b m = refl
  register-around (h ∷ hs) save switch clean mid a b m =
      rw (on_irq-around h save switch clean mid a b m.0)
        (register-around hs save switch clean (on_irq h mid) a b m.1)

  -- `kmt_init` registers the saving of the context with the smallest number, and the switch and the
  -- cleaner with the largest. Whatever handlers with numbers below the largest are registered after
  -- them, the saving stays first and the switch and the cleaner stay last, in this order.
  pub register-kmt_init :
      (hs : List (Irq C S)) (save switch clean : Irq C S)
      → save.seq ≡ int_min
      → switch.seq ≡ int_max
      → clean.seq ≡ int_max
      → All Between hs
      → register (save ∷ switch ∷ clean ∷ hs) [] ≡ around save (register hs []) switch clean
  unfolding register on_irq
  register-kmt_init hs save switch clean a b c m =
      let t₁ : ltb_ℤ switch.seq save.seq ≡ false = ground (arith, a, b) in
      let t₂ : ltb_ℤ clean.seq save.seq ≡ false = ground (arith, a, c) in
      let t₃ : ltb_ℤ clean.seq switch.seq ≡ false = ground (arith, b, c) in
      rw (t₁, t₂, t₃) (register-around hs save switch clean [] a b m)

  dispatch-append :
      (ev : ℕ) (context : C) (ps qs : List (Irq C S)) (ret : C) (s : S)
      → dispatch ev context (ps ++ qs) ret s
        ≡ (let (ret', s') = dispatch ev context ps ret s in dispatch ev context qs ret' s')
  unfolding dispatch
  dispatch-append ev context [] qs ret s = refl
  dispatch-append ev context (p ∷ ps) qs ret s =
      let (ret', s') = call ev context p ret s in dispatch-append ev context ps qs ret' s'

  last_two :
      (ev : ℕ) (context chosen : C) (switch clean : Irq C S) (ret : C) (s : S)
      → switch.event ≡ event_null
      → clean.event ≡ event_null
      → (switch.handler ev context s).0 ≡ some chosen
      → (clean.handler ev context (switch.handler ev context s).1).0 ≡ none
      → dispatch ev context (switch ∷ clean ∷ []) ret s
        ≡ (chosen, (clean.handler ev context (switch.handler ev context s).1).1)
  unfolding dispatch call
  last_two ev context chosen switch clean ret s e f g h = ground (arith, e, f, g, h)

  -- Under the scheduler's handlers a trap returns the context that the switch chooses: the switch runs
  -- on the state that the saving and all the handlers between have left, the cleaner runs last, and
  -- no context that a handler before the switch returned counts.
  pub trap-around :
      (ev : ℕ) (context chosen : C) (save switch clean : Irq C S) (mid : List (Irq C S)) (s : S)
      → switch.event ≡ event_null
      → clean.event ≡ event_null
      → (let s₁ = (dispatch ev context (save ∷ mid) context s).1 in
          let (c, s₂) = switch.handler ev context s₁ in
          (c ≡ some chosen) × ((clean.handler ev context s₂).0 ≡ none))
      → (let s₁ = (dispatch ev context (save ∷ mid) context s).1 in
          let s₂ = (switch.handler ev context s₁).1 in
          trap ev context (around save mid switch clean) s
          ≡ (chosen, (clean.handler ev context s₂).1))
  unfolding trap dispatch
  trap-around ev context chosen save switch clean mid s e f (g, h) =
      let (ret, s') = call ev context save context s in
      rw (dispatch-append ev context mid (switch ∷ clean ∷ []) ret s')
        (last_two ev context chosen switch clean _ _ e f g h)
