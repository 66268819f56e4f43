-- ===== src/Co/Inv.antt =====
-- The invariant of the pool of libco/co.c, and that each call keeps it.
use os_workbench.Base.{
  ℕ, zero, suc, ◌+◌, ◌-◌, ◌<◌, ◌≡◌, refl, ◌≢◌, true, false, Option, some, List, [], ◌∷◌, ◌++◌,
  arith, ◌==◌, length, length-set, get_or, get_or-set_self, get_or-set_ne, set, update, All, ap,
  ◌∙◌, sym, Bool-cases, inl, inr,
}
use mathlib.Core.Path.{subst}
use os_workbench.Co.{
  Co, max_routines, count_up, co_init, co_start, co_end, co_jmp, co_wait, co_waited,
}

-- `us` are the routines in use. What runs when a routine ends is one of them, and a `co_wait` is there
-- for it to go back to. The one that `co_wait` waited for need not be the one that ended: it then stays
-- in use and is never switched to again.
pub data Reach : Co → List ℕ → Type 0 where
  begin : (c : Co) → Reach (co_init c) []
  start :
      {c c' : Co} {us : List ℕ} (t : ℕ) → Reach c us → co_start c ≡ some (t, c') → Reach c' (t ∷ us)
  jump : {c : Co} {us : List ℕ} (t : ℕ) → Reach c us → c.alive t ≡ true → Reach (co_jmp t c) us
  wait : {c : Co} {us : List ℕ} (t : ℕ) → Reach c us → Reach (co_wait t c) us
  finish :
      {c c' : Co} {us : List ℕ} (before after : List ℕ)
      → Reach c us
      → us ≡ before ++ (c.current ∷ after)
      → co_end c ≡ some c'
      → Reach c' (before ++ after)

abbrev pub Absent : ℕ → List ℕ → Type 0
Absent t us = All (λ u. u ≢ t) us

abbrev Once : List ℕ → Type 0
Once [] = Unit
Once (u ∷ us) = Absent u us × Once us

pub record Inv (c : Co) (us : List ℕ) : Type 0 where
  pub room : length c.pool ≡ max_routines
  pub count : c.pool_idx + length us ≡ max_routines
  pub idle : (i : ℕ) → i < c.pool_idx → c.alive (get_or c.pool i 0) ≡ false
  pub apart : (i j : ℕ) → i < j → j < c.pool_idx → get_or c.pool i 0 ≢ get_or c.pool j 0
  pub out : (i : ℕ) → i < c.pool_idx → Absent (get_or c.pool i 0) us
  pub once : Once us

-- Being told from each of a list, from both sides.

-- One taken out of a list.
All-out :
    (P : ℕ → Type 0) (before : List ℕ) (t : ℕ) (after : List ℕ)
    → All P (before ++ (t ∷ after))
    → P t × All P (before ++ after)
All-out P [] t after a = a
All-out P (u ∷ before) t after a = let r = All-out P before t after a.1 in (r.0, (a.0, r.1))

Once-out :
    (before : List ℕ) (t : ℕ) (after : List ℕ)
    → Once (before ++ (t ∷ after))
    → Absent t (before ++ after) × Once (before ++ after)
Once-out [] t after o = o
Once-out (u ∷ before) t after o =
    let r = Once-out before t after o.1 in
    let a = All-out (λ v. v ≢ u) before t after o.0 in (((λ q. a.0 (sym q)), r.0), (a.1, r.1))

pub length-out :
    (before : List ℕ) (t : ℕ) (after : List ℕ)
    → length (before ++ (t ∷ after)) ≡ suc (length (before ++ after))
length-out [] t after = refl
length-out (u ∷ before) t after = ap suc (length-out before t after)

get_or-count_up : (i n k : ℕ) → k < n → get_or (count_up i n) k 0 ≡ i + k
get_or-count_up i zero k h = absurd (omega arith)
get_or-count_up i (suc n) zero h = omega arith
get_or-count_up i (suc n) (suc k) h = omega (arith, get_or-count_up (i + 1) n k)

length-count_up : (i n : ℕ) → length (count_up i n) ≡ n
length-count_up i zero = refl
length-count_up i (suc n) = ap suc (length-count_up (i + 1) n)

pub init-Inv : (c : Co) → Inv (co_init c) []
unfolding co_init
init-Inv c = record {
  room = length-count_up 0 100;
  count = omega arith;
  idle = λ i h. refl;
  apart = λ i j h k e. omega (arith, get_or-count_up 0 100 i, get_or-count_up 0 100 j, e);
  out = λ i h. tt;
  once = tt;
}

abbrev pub started : Co → Co
started c = record c {
  pool_idx = c.pool_idx - 1;
  alive = update c.alive (get_or c.pool (c.pool_idx - 1) 0) true;
  current = get_or c.pool (c.pool_idx - 1) 0;
}

pub started-Inv :
    (c : Co) (us : List ℕ)
    → Inv c us
    → c.pool_idx ≢ 0
    → Inv (started c) (get_or c.pool (c.pool_idx - 1) 0 ∷ us)
started-Inv c us i z =
    let t = get_or c.pool (c.pool_idx - 1) 0 in
    record {
      room = i.room;
      count = omega (arith, i.count);
      idle =
          λ k h. ground (arith, i.idle k (omega arith), i.apart k (c.pool_idx - 1) h (omega arith));
      apart = λ k j h l. i.apart k j h (omega arith);
      out = λ k h. (λ q. i.apart k (c.pool_idx - 1) h (omega arith) (sym q), i.out k (omega arith));
      once = (i.out (c.pool_idx - 1) (omega arith), i.once);
    }

abbrev pub finished : Co → Co
finished c = record c {
  alive = update c.alive c.current false;
  pool = set c.pool c.pool_idx c.current;
  pool_idx = c.pool_idx + 1;
}

pub finished-Inv :
    (c : Co) (before after : List ℕ)
    → Inv c (before ++ (c.current ∷ after))
    → Inv (finished c) (before ++ after)
finished-Inv c before after i =
    let n = length-out before c.current after in
    let away : (k : ℕ)
        → k < c.pool_idx
        → (c.current ≢ get_or c.pool k 0) × Absent (get_or c.pool k 0) (before ++ after) =
      λ k h. All-out (λ u. u ≢ get_or c.pool k 0) before c.current after (i.out k h) in
    let o = Once-out before c.current after i.once in
    let fits : c.pool_idx < length c.pool = omega (arith, n, i.count, i.room) in
    let here = get_or-set_self c.pool c.pool_idx c.current 0 fits in
    let there : (k : ℕ)
        → k < c.pool_idx
        → get_or (set c.pool c.pool_idx c.current) k 0 ≡ get_or c.pool k 0 =
      λ k h. get_or-set_ne c.pool c.pool_idx k c.current 0 (omega arith) in
    let at_end : (k : ℕ)
        → (k == c.pool_idx) ≡ true
        → get_or (set c.pool c.pool_idx c.current) k 0 ≡ c.current =
      λ k e. ground (arith, here, e) in
    record {
      room = length-set c.pool c.pool_idx c.current ∙ i.room;
      count = omega (arith, n, i.count);
      idle = λ k h. elim (Bool-cases (k == c.pool_idx)) [
        | inl e ↦ ground (arith, here, e)
        | inr e ↦ ground (arith, there k, i.idle k, e)
      ];
      apart = λ k j h m q. elim (Bool-cases (j == c.pool_idx)) [
        | inl e ↦ ground (arith, here, there k, (away k (omega arith)).0, e, q)
        | inr e ↦ ground (arith, there k, there j, i.apart k j h, e, q)
      ];
      out = λ k h. elim (Bool-cases (k == c.pool_idx)) [
        | inl e ↦ subst (λ x. Absent x (before ++ after)) (sym (at_end k e)) o.0
        | inr e ↦
            subst (λ x. Absent x (before ++ after)) (sym (there k (ground arith)))
              (away k (ground arith)).1
      ];
      once = o.1;
    }

pub jumped-Inv : (t : ℕ) (c : Co) (us : List ℕ) → Inv c us → Inv (co_jmp t c) us
unfolding co_jmp
jumped-Inv t c us i = record {
  room = i.room;
  count = i.count;
  idle = i.idle;
  apart = i.apart;
  out = i.out;
  once = i.once;
}

waiting-Inv : (w : Option ℕ) (c : Co) (us : List ℕ) → Inv c us → Inv (record c { waiting = w }) us
waiting-Inv w c us i = record {
  room = i.room;
  count = i.count;
  idle = i.idle;
  apart = i.apart;
  out = i.out;
  once = i.once;
}

pub waited-Inv : (t : ℕ) (c : Co) (us : List ℕ) → Inv c us → Inv (co_waited t c) us
unfolding co_waited
waited-Inv t c us i = record {
  room = i.room;
  count = i.count;
  idle = λ k h. ground (arith, i.idle k h);
  apart = i.apart;
  out = i.out;
  once = i.once;
}

pub wait-Inv : (t : ℕ) (c : Co) (us : List ℕ) → Inv c us → Inv (co_wait t c) us
unfolding co_wait
wait-Inv t c us i = elim (Bool-cases (c.alive t)) [
  | inl e ↦
      rw (e, co_wait)
        (jumped-Inv t (record c { waiting = some t }) us (waiting-Inv (some t) c us i))
  | inr e ↦ rw (e, co_wait) (waited-Inv t c us i)
]
