-- ===== src/Klib/Mutex.antt =====
-- The mutex of abstract-machine/libs/klib/src/pthread.c under any interleaving: each exchange is one
-- step of one thread. A thread is a number.
use os_workbench.Base.{
  ℕ, ◌≡◌, refl, sym, ap, ◌∙◌, ◌≢◌, ◌⊎◌, inl, inr, Bool, true, false, update, update_self, update_ne,
  if◌then◌else◌, ◌==◌, Bool-cases, ==→eq, ==→ne,
}

-- Where a thread stands: outside, in the loop of `pthread_mutex_lock`, or holding the mutex.
pub data Place : Type 0 where
  outside : Place
  spins : Place
  holding : Place

pub record Mutex : Type 0 where
  pub locked : Bool
  pub place : ℕ → Place

-- `atomic_xchg`: the value before, and the mutex with the new one.
unfoldable pub atomic_xchg : Mutex → Bool → Bool × Mutex
atomic_xchg m newval = (m.locked, record m { locked = newval })

abbrev pub went : ℕ → Place → Mutex → Mutex
went t p m = record m { place = update m.place t p }

-- A round of the loop of `pthread_mutex_lock`, which goes on while the old value is not 0.
unfoldable pub lock_round : ℕ → Mutex → Mutex
lock_round t m = let (old, m') = atomic_xchg m true in went t (if old then spins else holding) m'

-- `pthread_mutex_trylock`: 0, here false, for a mutex that was free.
unfoldable pub mutex_trylock : ℕ → Mutex → Bool × Mutex
mutex_trylock t m =
    let (old, m') = atomic_xchg m true in (old, went t (if old then outside else holding) m')

unfoldable pub mutex_unlock : ℕ → Mutex → Mutex
mutex_unlock t m = let (old, m') = atomic_xchg m false in went t outside m'

-- One exchange by one thread; only a thread that holds the mutex unlocks it.
pub data Step (m : Mutex) : Mutex → Type 0 where
  calls : (t : ℕ) → m.place t ≡ outside → Step m (lock_round t m)
  goes_on : (t : ℕ) → m.place t ≡ spins → Step m (lock_round t m)
  tries : (t : ℕ) → m.place t ≡ outside → Step m (mutex_trylock t m).1
  unlocks : (t : ℕ) → m.place t ≡ holding → Step m (mutex_unlock t m)

pub data Reach (m : Mutex) : Mutex → Type 0 where
  here : Reach m m
  next : {u v : Mutex} → Reach m u → Step u v → Reach m v

-- PTHREAD_MUTEX_INITIALIZER, with every thread outside.
abbrev pub initial : Mutex
initial = record { locked = false; place = λ _. outside }

-- The mutex is locked exactly if one thread holds it, and then by one only.
pub record Held (m : Mutex) : Type 0 where
  pub one : (t u : ℕ) → m.place t ≡ holding → m.place u ≡ holding → t ≡ u
  pub free : m.locked ≡ false → (t : ℕ) → m.place t ≢ holding
  pub taken : m.locked ≡ true → (t : ℕ) × (m.place t ≡ holding)

holding_other :
    (m : Mutex) (t x : ℕ) (p : Place)
    → update m.place t p x ≡ holding
    → ((x ≡ t) × (p ≡ holding)) ⊎ ((x ≢ t) × (m.place x ≡ holding))
holding_other m t x p e = elim (Bool-cases (x == t)) [
  | inl y ↦
      let k = ==→eq x t y in inl (k, sym (ap (update m.place t p) k ∙ update_self m.place t p) ∙ e)
  | inr y ↦ let ne = ==→ne x t y in inr (ne, sym (update_ne m.place t x p ne) ∙ e)
]

-- A locked mutex stays as it is when a thread that does not hold it goes elsewhere.
lost-Held :
    (t : ℕ) (p : Place) (m : Mutex)
    → p ≢ holding
    → m.place t ≢ holding
    → m.locked ≡ true
    → Held m
    → Held (record m { locked = true; place = update m.place t p })
lost-Held t p m np n l h = record {
  one = λ x y a b. elim (holding_other m t x p a) [
    | inl q ↦ absurd (np q.1)
    | inr q ↦ elim (holding_other m t y p b) [ inl r ↦ absurd (np r.1) | inr r ↦ h.one x y q.1 r.1 ]
  ];
  free = λ e. absurd (cc e);
  taken = λ _.
      let k = h.taken l in
      (k.0, update_ne m.place t k.0 p (λ e. n (sym (ap m.place e) ∙ k.1)) ∙ k.1);
}

won-Held :
    (t : ℕ) (m : Mutex)
    → m.locked ≡ false
    → Held m
    → Held (record m { locked = true; place = update m.place t holding })
won-Held t m l h = record {
  one = λ x y a b. elim (holding_other m t x holding a) [
    | inl q ↦ elim (holding_other m t y holding b) [
      | inl r ↦ q.0 ∙ sym r.0
      | inr r ↦ absurd (h.free l y r.1)
    ]
    | inr q ↦ absurd (h.free l x q.1)
  ];
  free = λ e. absurd (cc e);
  taken = λ _. (t, update_self m.place t holding);
}

lock_round-Held : (t : ℕ) (m : Mutex) → m.place t ≢ holding → Held m → Held (lock_round t m)
unfolding lock_round atomic_xchg
lock_round-Held t m n h = elim (Bool-cases m.locked) [
  | inl l ↦ rw (l, lock_round) (lost-Held t spins m (λ e. absurd (cc e)) n l h)
  | inr l ↦ rw (l, lock_round) (won-Held t m l h)
]

mutex_trylock-Held : (t : ℕ) (m : Mutex) → m.place t ≢ holding → Held m → Held (mutex_trylock t m).1
unfolding mutex_trylock atomic_xchg
mutex_trylock-Held t m n h = elim (Bool-cases m.locked) [
  | inl l ↦ rw l (lost-Held t outside m (λ e. absurd (cc e)) n l h)
  | inr l ↦ rw l (won-Held t m l h)
]

mutex_unlock-Held : (t : ℕ) (m : Mutex) → m.place t ≡ holding → Held m → Held (mutex_unlock t m)
unfolding mutex_unlock atomic_xchg
mutex_unlock-Held t m e h =
    let alone : (x : ℕ) → update m.place t outside x ≢ holding = λ x a.
      elim (holding_other m t x outside a) [
        | inl q ↦ absurd (cc q.1)
        | inr q ↦ q.0 (h.one x t q.1 e)
      ] in
    record { one = λ x y a b. absurd (alone x a); free = λ _. alone; taken = λ f. absurd (cc f) }

-- Only one thread holds the mutex, and it is locked exactly while one does.
pub Reach-Held : {m u : Mutex} → Held m → Reach m u → Held u
Reach-Held h here = h
Reach-Held h (next {u} r (calls t e)) = lock_round-Held t u (λ q. cc (q, e)) (Reach-Held h r)
Reach-Held h (next {u} r (goes_on t e)) = lock_round-Held t u (λ q. cc (q, e)) (Reach-Held h r)
Reach-Held h (next {u} r (tries t e)) = mutex_trylock-Held t u (λ q. cc (q, e)) (Reach-Held h r)
Reach-Held h (next {u} r (unlocks t e)) = mutex_unlock-Held t u e (Reach-Held h r)

pub initial-Held : Held initial
initial-Held = record {
  one = λ t u a b. absurd (cc a);
  free = λ _ t e. cc e;
  taken = λ e. absurd (cc e);
}

lock_round-wins : (t : ℕ) (m : Mutex) → m.locked ≡ false → (lock_round t m).place t ≡ holding
unfolding lock_round atomic_xchg
lock_round-wins t m l = rw (l, lock_round) (update_self m.place t holding)

mutex_unlock_free : (t : ℕ) (m : Mutex) → (mutex_unlock t m).locked ≡ false
unfolding mutex_unlock atomic_xchg
mutex_unlock_free t m = refl

mutex_unlock_place : (t u : ℕ) (m : Mutex) → u ≢ t → (mutex_unlock t m).place u ≡ m.place u
unfolding mutex_unlock atomic_xchg
mutex_unlock_place t u m ne = update_ne m.place t u outside ne

-- Thread `t` holds the mutex, and no other does.
abbrev pub Only : ℕ → Mutex → Type 0
Only t m = (m.place t ≡ holding) × ((u : ℕ) → m.place u ≡ holding → u ≡ t)

-- In every state that the exchanges of any threads reach, a thread in the loop of
-- `pthread_mutex_lock` comes to hold the mutex, and alone: by its own next exchange if the mutex is
-- free, and if it is locked one thread alone holds it, and once that thread's next exchange has
-- unlocked it, by its own exchange right after that.
pub Reach_served :
    (m : Mutex) (t : ℕ)
    → Reach initial m
    → m.place t ≡ spins
    → ((m.locked ≡ false) × Step m (lock_round t m) × Only t (lock_round t m))
      ⊎ ((m.locked ≡ true)
          × ((k : ℕ) × Only k m
              × Step m (mutex_unlock k m)
              × Step (mutex_unlock k m) (lock_round t (mutex_unlock k m))
              × Only t (lock_round t (mutex_unlock k m))))
Reach_served m t r e =
    let h = Reach-Held initial-Held r in
    elim (Bool-cases m.locked) [
      | inr l ↦
          let w = lock_round-wins t m l in
          let s = goes_on t e in inl (l, s, (w, λ u q. (Reach-Held h (next here s)).one u t q w))
      | inl l ↦
          let k = h.taken l in
          let ne : t ≢ k.0 = λ q. cc (ap m.place q, e, k.1) in
          let u = mutex_unlock k.0 m in
          let still = mutex_unlock_place k.0 t m ne ∙ e in
          let w = lock_round-wins t u (mutex_unlock_free k.0 m) in
          let s = unlocks k.0 k.1 in
          let s' = goes_on t still in
          inr (
            l,
            (
              k.0,
              (k.1, λ o q. h.one o k.0 q k.1),
              s,
              s',
              (w, λ o q. (Reach-Held h (next (next here s) s')).one o t q w),
            ),
          )
    ]
