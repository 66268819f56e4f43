-- ===== src/Input/Ring.antt =====
-- The queue of events of input.c, as a list.
use os_workbench.Base.{
  ℕ, zero, suc, ◌+◌, ◌-◌, ◌%◌, ◌<◌, ◌≡◌, refl, true, false, some, List, [], ◌∷◌, ◌++◌, arith, ◌==◌,
  if◌then◌else◌, length, update, ap, ◌∙◌,
}
use mathlib.Core.Path.{ap₂}
use os_workbench.Input.{Event, Input, push_event}

-- The `n` events from index `h` on.
abbrev pub events_from : (ℕ → Event) → (h n : ℕ) → List Event
events_from f h zero = []
events_from f h (suc n) = f h ∷ events_from f ((h + 1) % 128) n

pub length-events_from : (f : ℕ → Event) (h n : ℕ) → length (events_from f h n) ≡ n
length-events_from f h zero = refl
length-events_from f h (suc n) = ap suc (length-events_from f ((h + 1) % 128) n)

events_from-snoc :
    (f : ℕ → Event) (h n r : ℕ) (ev : Event)
    → h < 128
    → n < 128
    → r ≡ (h + n) % 128
    → events_from (update f r ev) h (suc n) ≡ events_from f h n ++ (ev ∷ [])
events_from-snoc f h zero r ev a b e =
    let here : (h == r) ≡ true = ground (arith, e) in ap (λ x. (if x then ev else f h) ∷ []) here
events_from-snoc f h (suc n) r ev a b e =
    let other : (h == r) ≡ false = ground (arith, e) in
    ap₂ ◌∷◌ (ap (λ x. if x then ev else f h) other)
      (events_from-snoc f ((h + 1) % 128) n r ev (omega arith) (omega arith) (omega (arith, e)))

-- The events in the queue.
abbrev pub pending : Input → List Event
pending k = events_from k.events k.front ((k.rear + 128 - k.front) % 128)

-- The indices are in the ring, and the semaphore counts the events.
pub record IsValid (k : Input) : Type 0 where
  pub front_in : k.front < 128
  pub rear_in : k.rear < 128
  pub counted : k.event_sem ≡ (k.rear + 128 - k.front) % 128

-- With room, an event goes to the end.
pub push_event-pending :
    (ev : Event) (k : Input)
    → IsValid k
    → length (pending k) < 127
    → (k' : Input) × (push_event ev k ≡ some k')
      × IsValid k'
      × (k'.mods ≡ k.mods)
      × (pending k' ≡ pending k ++ (ev ∷ []))
unfolding push_event
push_event-pending ev k v h =
    let n = (k.rear + 128 - k.front) % 128 in
    let n_lt : n < 127 = omega (arith, h, length-events_from k.events k.front n) in
    let rear = (k.rear + 1) % 128 in
    let free : (rear == k.front) ≡ false = ground (arith, n_lt, v.front_in, v.rear_in) in
    let next : (rear + 128 - k.front) % 128 ≡ suc n = omega (arith, n_lt, v.front_in, v.rear_in) in
    (
      record k { events = update k.events k.rear ev; rear = rear; event_sem = k.event_sem + 1 },
      rw free refl,
      record {
        front_in = v.front_in;
        rear_in = omega arith;
        counted = omega (arith, v.counted, next);
      },
      refl,
      ap (events_from (update k.events k.rear ev) k.front) next
          ∙ events_from-snoc k.events k.front n k.rear ev v.front_in (omega (arith, n_lt))
              (omega (arith, v.front_in, v.rear_in)),
    )
