-- ===== src/Os/Order.antt =====
-- The order of the handlers that `os_on_irq` of kernel/src/os.c keeps.
use os_workbench.Base.{◌≡◌, refl, true, List, [], ◌∷◌, ◌++◌, arith, All, Bool-cases, inl, inr, ap}
use os_workbench.Base.Int.{ℤ, ltb_ℤ, ◌≤ℤ◌}
use os_workbench.Os.{Irq, on_irq}

module _ {C S : Type 0} where
  -- Handlers in the order of their numbers.
  abbrev pub Ordered : List (Irq C S) → Type 0
  Ordered [] = Unit
  Ordered (p ∷ ps) = All (λ q. p.seq ≤ℤ q.seq) ps × Ordered ps

  -- `p` comes at the latest at number `k`, or behind it.
  abbrev pub UpTo : ℤ → Irq C S → Type 0
  UpTo k p = p.seq ≤ℤ k

  abbrev pub Behind : ℤ → Irq C S → Type 0
  Behind k p = ltb_ℤ k p.seq ≡ true

  -- Where the new handler goes: behind those up to its number, before the others.
  pub record Placed (h : Irq C S) (ps qs : List (Irq C S)) : Type 0 where
    pub before : List (Irq C S)
    pub after : List (Irq C S)
    pub split : ps ≡ before ++ after
    pub joined : qs ≡ before ++ (h ∷ after)
    pub earlier : All (UpTo h.seq) before
    pub later : All (Behind h.seq) after

  Behind-All :
      (k : ℤ) (p : Irq C S) (ps : List (Irq C S))
      → Behind k p
      → All (λ q. p.seq ≤ℤ q.seq) ps
      → All (Behind k) ps
  Behind-All k p [] b h = tt
  Behind-All k p (q ∷ ps) b h = (ground (arith, h.0), Behind-All k p ps b h.1)

  Behind-le : (k : ℤ) (ps : List (Irq C S)) → All (Behind k) ps → All (λ q. k ≤ℤ q.seq) ps
  Behind-le k [] b = tt
  Behind-le k (p ∷ ps) b = (ground (arith, b.0), Behind-le k ps b.1)

  -- In an ordered list a new handler goes behind all those with its number or a smaller one, in the
  -- order of registration, and before all those with a larger one.
  pub on_irq-Placed : (h : Irq C S) (ps : List (Irq C S)) → Ordered ps → Placed h ps (on_irq h ps)
  unfolding on_irq
  on_irq-Placed h [] o = record {
    before = [];
    after = [];
    split = refl;
    joined = refl;
    earlier = tt;
    later = tt;
  }
  on_irq-Placed h (p ∷ ps) o = elim (Bool-cases (ltb_ℤ h.seq p.seq)) [
    | inl lt ↦ record {
      before = [];
      after = p ∷ ps;
      split = refl;
      joined = rw lt;
      earlier = tt;
      later = (lt, Behind-All h.seq p ps lt o.0);
    }
    | inr ge ↦
        let r = on_irq-Placed h ps o.1 in
        record {
          before = p ∷ r.before;
          after = r.after;
          split = ap (λ t. p ∷ t) r.split;
          joined = rw ge (ap (λ t. p ∷ t) r.joined);
          earlier = (ground arith, r.earlier);
          later = r.later;
        }
  ]

  All-on_irq :
      (P : Irq C S → Type 0) (h : Irq C S) (ps : List (Irq C S))
      → P h
      → All P ps
      → All P (on_irq h ps)
  unfolding on_irq
  All-on_irq P h [] x a = (x, tt)
  All-on_irq P h (p ∷ ps) x a = elim (Bool-cases (ltb_ℤ h.seq p.seq)) [
    | inl lt ↦ rw lt (x, a)
    | inr ge ↦ rw ge (a.0, All-on_irq P h ps x a.1)
  ]

  -- `on_irq` keeps the handlers in the order of their numbers.
  pub on_irq-Ordered : (h : Irq C S) (ps : List (Irq C S)) → Ordered ps → Ordered (on_irq h ps)
  unfolding on_irq
  on_irq-Ordered h [] o = (tt, tt)
  on_irq-Ordered h (p ∷ ps) o = elim (Bool-cases (ltb_ℤ h.seq p.seq)) [
    | inl lt ↦ rw lt ((ground arith, Behind-le h.seq ps (Behind-All h.seq p ps lt o.0)), o)
    | inr ge ↦
        rw ge (All-on_irq (λ q. p.seq ≤ℤ q.seq) h ps (ground arith) o.0, on_irq-Ordered h ps o.1)
  ]
