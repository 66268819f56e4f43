-- ===== src/Kmt/Sem/Sleep.antt =====
-- Who sleeps: over every order of calls on one semaphore, the TASK_SLEEP bit agrees with the pool.
use os_workbench.Base.{
  ℕ, suc, ◌+◌, ◌-◌, ◌^◌, ◌<◌, ◌≡◌, refl, Bool, true, false, ◌||◌, ◌&&◌, not, List, [], ◌∷◌, ◌++◌,
  arith, ◌==◌, if◌then◌else◌, get_or, ap, ◌∙◌, sym, Bool-cases, inl, inr, ==→eq, ==→ne,
}
use os_workbench.Base.Window.{window, window-pos, succ}
use os_workbench.Kmt.Sem.{Sem, State, pool_len, sem_wait, sem_signal}
use os_workbench.Kmt.Sem.Inv.{IsValid, waiters, credits, queue, wait-IsValid, signal-IsValid}
use os_workbench.Kmt.Sem.Queue.{acquire, release, sem_wait-acquire, sem_signal-release}

abbrev pub has : ℕ → List ℕ → Bool
has t [] = false
has t (x ∷ xs) = (t == x) || has t xs

-- No task stands in the line twice.
abbrev pub Once : List ℕ → Type 0
Once [] = Unit
Once (x ∷ xs) = (has x xs ≡ false) × Once xs

has-append : (t u : ℕ) (xs : List ℕ) → has t (xs ++ (u ∷ [])) ≡ (has t xs || (t == u))
has-append t u [] = ground arith
has-append t u (x ∷ xs) = ground (arith, has-append t u xs)

Once-append : (u : ℕ) (xs : List ℕ) → Once xs → has u xs ≡ false → Once (xs ++ (u ∷ []))
Once-append u [] o h = (refl, tt)
Once-append u (x ∷ xs) o h =
    (ground (arith, has-append x u xs), Once-append u xs o.1 (ground arith))

-- The semaphore and the sleeping tasks of a system with this one semaphore.
pub record Agrees (s : State) : Type 0 where
  pub valid : IsValid s.sem
  pub once : Once (queue s.sem)
  pub asleep : (t : ℕ) → (s.attr t).sleep ≡ has t (queue s.sem)

-- The line's first task, with the rest.
abbrev pub front : Sem → ℕ
front m = get_or m.pool m.head 0

abbrev rest : Sem → List ℕ
rest m = window m.pool pool_len (succ pool_len m.head) (waiters m.value - 1)

-- How many tasks a signal wakes: the one at the pool's head, if it sleeps before and not after.
abbrev pub woken : State → ℕ
woken s =
    if (s.attr (front s.sem)).sleep && not ((sem_signal s).attr (front s.sem)).sleep then 1 else 0

-- How many waits a call lets through: itself, if its task does not sleep after it.
abbrev pub let_through : ℕ → State → ℕ
let_through t s = if ((sem_wait t s).0.attr t).sleep then 0 else 1

-- `start` is the first state, `p` counts the tasks whose wait went through, at once or when a signal woke
-- them, and `n` the signals. A sleeping task makes no call.
pub data Reach (start : State) : State → ℕ → ℕ → Type 0 where
  begin : Reach start start 0 0
  wait :
      {s : State} {p n : ℕ} (t : ℕ)
      → Reach start s p n
      → (s.attr t).sleep ≡ false
      → waiters s.sem.value < pool_len
      → Reach start (sem_wait t s).0 (p + let_through t s) n
  signal :
      {s : State} {p n : ℕ}
      → Reach start s p n
      → credits s.sem.value < 2 ^ 31 - 1
      → Reach start (sem_signal s) (p + woken s) (suc n)

wait-attr :
    (t u : ℕ) (s : State)
    → IsValid s.sem
    → ((sem_wait t s).0.attr u).sleep
      ≡ (if (credits s.sem.value == 0) && (u == t) then true else (s.attr u).sleep)
unfolding sem_wait
wait-attr t u s v = ground arith

signal-attr :
    (u : ℕ) (s : State)
    → IsValid s.sem
    → credits s.sem.value < 2 ^ 31 - 1
    → ((sem_signal s).attr u).sleep ≡ (
        if not (waiters s.sem.value == 0) && (u == get_or s.sem.pool s.sem.head 0)
        then false
        else (s.attr u).sleep)
unfolding sem_signal
signal-attr u s v h = ground arith

-- What `P` and `V` do to the line.
wait-queue :
    (t : ℕ) (s : State)
    → IsValid s.sem
    → waiters s.sem.value < pool_len
    → queue (sem_wait t s).0.sem
      ≡ (if credits s.sem.value == 0 then queue s.sem ++ (t ∷ []) else queue s.sem)
unfolding acquire
wait-queue t s v h = ground (arith, (sem_wait-acquire t s v h).1)

signal-queue :
    (x : ℕ) (xs : List ℕ) (s : State)
    → IsValid s.sem
    → credits s.sem.value < 2 ^ 31 - 1
    → queue s.sem ≡ x ∷ xs
    → queue (sem_signal s).sem ≡ xs
unfolding release
signal-queue x xs s v h e = ground (arith, (sem_signal-release s v h).1)

signal-queue_nil :
    (s : State)
    → IsValid s.sem
    → credits s.sem.value < 2 ^ 31 - 1
    → queue s.sem ≡ []
    → queue (sem_signal s).sem ≡ []
unfolding release
signal-queue_nil s v h e = ground (arith, (sem_signal-release s v h).1)

wait-Agrees :
    (t : ℕ) (s : State)
    → Agrees s
    → (s.attr t).sleep ≡ false
    → waiters s.sem.value < pool_len
    → Agrees (sem_wait t s).0
wait-Agrees t s a e h = elim (Bool-cases (credits s.sem.value == 0)) [
  | inl z ↦
      let q : queue (sem_wait t s).0.sem ≡ queue s.sem ++ (t ∷ []) =
        ground (arith, wait-queue t s a.valid h) in
      record {
        valid = wait-IsValid t s a.valid h;
        once = rw q (Once-append t (queue s.sem) a.once (sym (a.asleep t) ∙ e));
        asleep = λ u.
            rw q
              (ground (arith, wait-attr t u s a.valid, has-append u t (queue s.sem), a.asleep u));
      }
  | inr nz ↦
      let q : queue (sem_wait t s).0.sem ≡ queue s.sem = ground (arith, wait-queue t s a.valid h) in
      record {
        valid = wait-IsValid t s a.valid h;
        once = rw q a.once;
        asleep = λ u. rw q (ground (arith, wait-attr t u s a.valid, a.asleep u));
      }
]

asleep-front :
    (u : ℕ) (s : State)
    → Agrees s
    → queue s.sem ≡ front s.sem ∷ rest s.sem
    → (if u == front s.sem then false else (s.attr u).sleep) ≡ has u (rest s.sem)
asleep-front u s a q =
    let o : Once (front s.sem ∷ rest s.sem) = rw q at (a.once) in
    ground (arith, a.asleep u, ap (has u) q, o.0)

signal-Agrees : (s : State) → Agrees s → credits s.sem.value < 2 ^ 31 - 1 → Agrees (sem_signal s)
signal-Agrees s a h = elim (Bool-cases (waiters s.sem.value == 0)) [
  | inl z ↦
      let e : queue s.sem ≡ [] =
        ap (window s.sem.pool pool_len s.sem.head) (==→eq (waiters s.sem.value) 0 z) in
      let q = signal-queue_nil s a.valid h e in
      record {
        valid = signal-IsValid s a.valid h;
        once = rw q tt;
        asleep = λ u. rw q (ground (arith, signal-attr u s a.valid h, a.asleep u, ap (has u) e));
      }
  | inr nz ↦
      let e : queue s.sem ≡ front s.sem ∷ rest s.sem =
        window-pos s.sem.pool pool_len s.sem.head (waiters s.sem.value)
          (==→ne (waiters s.sem.value) 0 nz) in
      let q = signal-queue (front s.sem) (rest s.sem) s a.valid h e in
      let o : Once (front s.sem ∷ rest s.sem) = rw e at (a.once) in
      record {
        valid = signal-IsValid s a.valid h;
        once = rw q (o.1);
        asleep = λ u. rw q (ground (arith, signal-attr u s a.valid h, asleep-front u s a e));
      }
]

let_through-credits :
    (t : ℕ) (s : State)
    → Agrees s
    → (s.attr t).sleep ≡ false
    → let_through t s + credits (sem_wait t s).0.sem.value ≡ credits s.sem.value
unfolding sem_wait
let_through-credits t s a e = ground (arith, a.valid.word, e)

-- A signal wakes one task if any waits.
woken-waiters :
    (s : State)
    → Agrees s
    → credits s.sem.value < 2 ^ 31 - 1
    → woken s ≡ (if waiters s.sem.value == 0 then 0 else 1)
woken-waiters s a h =
    let x = front s.sem in
    elim (Bool-cases (waiters s.sem.value == 0)) [
      | inl z ↦
          let e : queue s.sem ≡ [] =
            ap (window s.sem.pool pool_len s.sem.head) (==→eq (waiters s.sem.value) 0 z) in
          let awake : (s.attr x).sleep ≡ false = a.asleep x ∙ ap (has x) e in
          ground (arith, awake, z)
      | inr nz ↦
          let e : queue s.sem ≡ x ∷ rest s.sem =
            window-pos s.sem.pool pool_len s.sem.head (waiters s.sem.value)
              (==→ne (waiters s.sem.value) 0 nz) in
          let asleep : (s.attr x).sleep ≡ true = a.asleep x ∙ ap (has x) e ∙ ground arith in
          let up = signal-attr x s a.valid h in ground (arith, asleep, up, nz)
    ]

signal-credits :
    (s : State)
    → IsValid s.sem
    → credits s.sem.value < 2 ^ 31 - 1
    → (if waiters s.sem.value == 0 then 0 else 1) + credits (sem_signal s).sem.value
      ≡ suc (credits s.sem.value)
unfolding sem_signal
signal-credits s v h = ground (arith, v.word)

module _ {start : State} (fresh : Agrees start) where
  -- In every order of calls from a state where the two agree, in which a sleeping task makes no
  -- call, at most 20 wait and the value stays an `int`, a task's sleep bit is set exactly when it
  -- stands in the pool, nobody stands there twice, and the indices are sound: a task that is put to
  -- sleep is found by a later signal, and one that is not in the pool is not left asleep.
  pub Reach-Agrees : {s : State} {p n : ℕ} → Reach start s p n → Agrees s
  Reach-Agrees begin = fresh
  Reach-Agrees (wait {s} t r e w) = wait-Agrees t s (Reach-Agrees r) e w
  Reach-Agrees (signal {s} r h) = signal-Agrees s (Reach-Agrees r) h

  -- In every order of calls from a state where the two agree, in which a sleeping task makes no
  -- call, at most 20 wait and the value stays an `int`, the tasks whose wait went through, as they
  -- were awake after it or a signal cleared their sleep bit, are as many as the first credits and the
  -- signals together, less the credits that are left.
  pub Reach-passed :
      {s : State} {p n : ℕ}
      → Reach start s p n
      → p + credits s.sem.value ≡ credits start.sem.value + n
  Reach-passed begin = omega arith
  Reach-passed (wait {s} t r e w) =
      omega (arith, let_through-credits t s (Reach-Agrees r) e, Reach-passed r)
  Reach-passed (signal {s} r h) =
      let a = Reach-Agrees r in
      omega (arith, woken-waiters s a h, signal-credits s a.valid h, Reach-passed r)
