-- ===== src/Co/Pool.antt =====
-- The pool of libco/co.c over any order of calls.
use os_workbench.Base.{
  ℕ, ◌-◌, ◌≤◌, ◌<◌, ◌≡◌, refl, ◌≢◌, true, false, Option, ap, none, some, List, ◌∷◌, ◌++◌, arith,
  ◌==◌, length, get_or, update, All, ◌∙◌, sym, Bool-cases, inl, inr,
}
use mathlib.Core.Path.{subst}
use os_workbench.Co.{Co, max_routines, new_co, co_start, co_return, co_end, co_waited, back_in}
use os_workbench.Co.Inv.{
  Reach, begin, start, jump, wait, finish, Inv, length-out, jumped-Inv, waited-Inv, wait-Inv,
  init-Inv, started, started-Inv, finished, finished-Inv,
}

co_start-started :
    (c : Co) → c.pool_idx ≢ 0 → co_start c ≡ some (get_or c.pool (c.pool_idx - 1) 0, started c)
unfolding co_start new_co
co_start-started c z = ground arith

co_start-none : (c : Co) → c.pool_idx ≡ 0 → co_start c ≡ none
unfolding co_start new_co
co_start-none c z = ground arith

co_return-finished : (c : Co) → c.pool_idx < max_routines → co_return c ≡ some (finished c)
unfolding co_return
co_return-finished c h = ground arith

co_return-none : (c : Co) → max_routines ≤ c.pool_idx → co_return c ≡ none
unfolding co_return
co_return-none c h = ground arith

start-Inv :
    (c c' : Co) (us : List ℕ) (t : ℕ) → Inv c us → co_start c ≡ some (t, c') → Inv c' (t ∷ us)
start-Inv c c' us t i e = elim (Bool-cases (c.pool_idx == 0)) [
  | inl z ↦ let q = co_start-none c (ground arith) in absurd (cc (q, e))
  | inr z ↦
      let n : c.pool_idx ≢ 0 = ground arith in
      let q : some (get_or c.pool (c.pool_idx - 1) 0, started c) ≡ some (t, c') =
        sym (co_start-started c n) ∙ e in
      let t_eq : get_or c.pool (c.pool_idx - 1) 0 ≡ t = cc q in
      let c_eq : started c ≡ c' = cc q in
      subst (λ x. Inv c' (x ∷ us)) t_eq
        (subst (λ d. Inv d (get_or c.pool (c.pool_idx - 1) 0 ∷ us)) c_eq (started-Inv c us i n))
]

back_in-Inv :
    (w : Option ℕ) (d c' : Co) (us : List ℕ) → Inv d us → back_in w d ≡ some c' → Inv c' us
back_in-Inv none d c' us i e = absurd (cc e)
back_in-Inv (some t) d c' us i e =
    let q : co_waited t d ≡ c' = cc e in subst (λ x. Inv x us) q (waited-Inv t d us i)

co_end-back_in : (c : Co) → c.pool_idx < max_routines → co_end c ≡ back_in c.waiting (finished c)
unfolding co_end
co_end-back_in c h = rw (co_return-finished c h, co_end) refl

end-Inv :
    (c c' : Co) (before after : List ℕ)
    → Inv c (before ++ (c.current ∷ after))
    → co_end c ≡ some c'
    → Inv c' (before ++ after)
end-Inv c c' before after i e =
    let n = length-out before c.current after in
    back_in-Inv c.waiting (finished c) c' (before ++ after) (finished-Inv c before after i)
      (sym (co_end-back_in c (omega (arith, n, i.count))) ∙ e)

pub Reach-Inv : {c : Co} {us : List ℕ} → Reach c us → Inv c us
Reach-Inv (begin c) = init-Inv c
Reach-Inv (start {c} {c'} {us} t r e) = start-Inv c c' us t (Reach-Inv r) e
Reach-Inv (jump {c} {us} t r e) = jumped-Inv t c us (Reach-Inv r)
Reach-Inv (wait {c} {us} t r) = wait-Inv t c us (Reach-Inv r)
Reach-Inv (finish {c} {c'} before after r u e) =
    end-Inv c c' before after (subst (Inv c) u (Reach-Inv r)) e

-- In every order of starts, switches, waits and ends of routines, in which the routine that ends is
-- the current one and in use and a `co_wait` is running, fewer than 100 routines in use let `co_start`
-- return a routine that is not in use and not alive, and it makes that one alive and current, and no
-- other.
pub Reach-co_start :
    {c : Co} {us : List ℕ}
    → Reach c us
    → length us < max_routines
    → (t : ℕ) × (c' : Co) × (co_start c ≡ some (t, c'))
      × All (λ u. u ≢ t) us
      × (c.alive t ≡ false)
      × (c'.alive ≡ update c.alive t true)
      × (c'.current ≡ t)
Reach-co_start {c} {us} r h =
    let i = Reach-Inv r in
    let n : c.pool_idx ≢ 0 = omega (arith, i.count) in
    let t = get_or c.pool (c.pool_idx - 1) 0 in
    let e : c.alive t ≡ false = i.idle (c.pool_idx - 1) (omega arith) in
    (t, started c, co_start-started c n, i.out (c.pool_idx - 1) (omega arith), e, refl, refl)

-- In every order of starts, switches, waits and ends of routines, the current one ending, that one, if
-- it is in use and ends while a `co_wait` for `t` is running, finds room in the pool: the write stays
-- in the array. Afterwards neither it nor `t` is alive, though of the two only
-- the one that ended is out of use, and the state is one of such an order again.
pub Reach-co_return :
    {c : Co} (t : ℕ) (before after : List ℕ)
    → Reach c (before ++ (c.current ∷ after))
    → c.waiting ≡ some t
    → (c' : Co) × (co_end c ≡ some c')
      × (c.pool_idx < length c.pool)
      × (c'.alive c.current ≡ false)
      × (c'.alive t ≡ false)
      × Reach c' (before ++ after)
unfolding co_waited
Reach-co_return {c} t before after r w =
    let i = Reach-Inv r in
    let n = length-out before c.current after in
    let e : co_end c ≡ some (co_waited t (finished c)) =
      co_end-back_in c (omega (arith, n, i.count)) ∙ ap (λ x. back_in x (finished c)) w in
    (
      co_waited t (finished c),
      e,
      omega (arith, n, i.count, i.room),
      ground arith,
      ground arith,
      finish before after r refl e,
    )
