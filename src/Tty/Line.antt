-- ===== src/Tty/Line.antt =====
-- The queue of typed bytes of tty.c is a list of bytes, edited at its end and read a line at a time.
use os_workbench.Base.{
  ℕ, zero, suc, ◌-◌, ◌<◌, ◌≡◌, refl, Bool, true, false, not, some, List, [], ◌∷◌, ◌++◌, arith, ◌==◌,
  if◌then◌else◌, get_or, set, length, length-set, ap, ◌∙◌, sym, Bool-cases, inl, inr, ==→eq, ==→ne,
  get_or-set_ne,
}
use os_workbench.Base.Window.{
  succ, place, gap, window, length-window, window-set, window-set_out, window-snoc,
}
use os_workbench.Tty.Cook.{Queue, tty_enqueue, tty_pop_back}

-- The bytes in the queue.
abbrev pub pending : Queue → List ℕ
pending q = window q.buf 1024 q.front (gap 1024 q.front q.rear)

abbrev pub before : ℕ → ℕ
before i = (if i == 0 then 1024 else i) - 1

-- The byte before the queue's front is 0.
pub record IsValid (q : Queue) : Type 0 where
  pub room : length q.buf ≡ 1024
  pub front_in : q.front < 1024
  pub rear_in : q.rear < 1024
  pub fenced : get_or q.buf (before q.front) 0 ≡ 0

set-zero : (m : List ℕ) (i j : ℕ) → get_or m j 0 ≡ 0 → get_or (set m i 0) j 0 ≡ 0
set-zero [] i j h = h
set-zero (x ∷ m) zero zero h = refl
set-zero (x ∷ m) zero (suc j) h = h
set-zero (x ∷ m) (suc i) zero h = h
set-zero (x ∷ m) (suc i) (suc j) h = set-zero m i j h

-- A byte goes to the end of the bytes while they do not fill all but one of the places.
pub enqueue-pending :
    (q : Queue) (ch : ℕ)
    → IsValid q
    → length (pending q) < 1023
    → (r : Queue) × (tty_enqueue q ch ≡ some r) × IsValid r × (pending r ≡ pending q ++ (ch ∷ []))
unfolding tty_enqueue
enqueue-pending q ch v h = (
  record q { buf = set (set q.buf q.rear ch) rear 0; rear = rear },
  ground (arith, gap_lt, v.front_in, v.rear_in),
  record {
    room = length-set (set q.buf q.rear ch) rear 0 ∙ length-set q.buf q.rear ch ∙ v.room;
    front_in = v.front_in;
    rear_in = ground (arith, v.rear_in);
    fenced = set-zero (set q.buf q.rear ch) rear (before q.front) (
        get_or-set_ne q.buf q.rear (before q.front) ch 0
          (ground (arith, gap_lt, v.front_in, v.rear_in))
        ∙ v.fenced);
  },
  ap (window (set (set q.buf q.rear ch) rear 0) 1024 q.front) next
      ∙ window-set_out (set q.buf q.rear ch) 1024 q.front (suc n) (suc n) rear 0 v.front_in
          (omega arith) (omega (arith, gap_lt)) (ground (arith, gap_lt, v.front_in, v.rear_in))
      ∙ window-set q.buf 1024 q.front n q.rear ch (omega (arith, v.room)) v.front_in
          (omega (arith, gap_lt)) (ground (arith, gap_lt, v.front_in, v.rear_in)),
)
  where
    rear : ℕ
    rear = succ 1024 q.rear

    n : ℕ
    n = gap 1024 q.front q.rear

    gap_lt : n < 1023
    gap_lt = omega (arith, h, length-window q.buf 1024 q.front n)

    next : gap 1024 q.front rear ≡ suc n
    next = ground (arith, gap_lt, v.front_in, v.rear_in)

-- Whether there is a last byte that ends no line.
abbrev pub ends_open : List ℕ → Bool
ends_open [] = false
ends_open (x ∷ []) = not (x == 0)
ends_open (x ∷ y ∷ l) = ends_open (y ∷ l)

-- The bytes without such a last byte.
abbrev pub rub : List ℕ → List ℕ
rub [] = []
rub (x ∷ []) = if x == 0 then x ∷ [] else []
rub (x ∷ y ∷ l) = x ∷ rub (y ∷ l)

ends_open-snoc : (l : List ℕ) (x : ℕ) → ends_open (l ++ (x ∷ [])) ≡ not (x == 0)
ends_open-snoc [] x = refl
ends_open-snoc (a ∷ []) x = refl
ends_open-snoc (a ∷ b ∷ l) x = ends_open-snoc (b ∷ l) x

rub-snoc : (l : List ℕ) (x : ℕ) → rub (l ++ (x ∷ [])) ≡ (if x == 0 then l ++ (x ∷ []) else l)
rub-snoc [] x = refl
rub-snoc (a ∷ []) x = elim (Bool-cases (x == 0)) [ inl e ↦ rw e refl | inr e ↦ rw e refl ]
rub-snoc (a ∷ b ∷ l) x =
    ap (λ t. a ∷ t) (rub-snoc (b ∷ l) x)
    ∙ elim (Bool-cases (x == 0)) [ inl e ↦ rw e refl | inr e ↦ rw e refl ]

pub pop_back-pending :
    (q : Queue)
    → IsValid q
    → (r : Queue) × (tty_pop_back q ≡ (if ends_open (pending q) then 0 else 1, r))
      × IsValid r
      × (pending r ≡ rub (pending q))
unfolding tty_pop_back
pop_back-pending q v = elim (Bool-cases (q.rear == q.front)) [
  | inl e ↦ empty (==→eq q.rear q.front e)
  | inr e ↦ more (==→ne q.rear q.front e)
]
  where
    Goal : Type 0
    Goal =
        (r : Queue) × (tty_pop_back q ≡ (if ends_open (pending q) then 0 else 1, r))
        × IsValid r
        × (pending r ≡ rub (pending q))

    at_end : (q.front == 1024) ≡ false
    at_end = ground (arith, v.front_in)

    empty : q.rear ≡ q.front → Goal
    empty e =
        let g : gap 1024 q.front q.rear ≡ 0 = ground (arith, e) in
        let z : get_or q.buf (before q.rear) 0 ≡ 0 =
          ap (λ i. get_or q.buf (before i) 0) e ∙ v.fenced in
        (q, rw (at_end, z, g) refl, v, rw g refl)

    more : (q.rear ≡ q.front → ⊥) → Goal
    more e = elim (Bool-cases (x == 0)) [
      | inl c ↦ (
        q,
        pop c ∙ ap (λ b. (if b then 0 else 1, q)) (sym (open_end ∙ ap not c)),
        v,
        whole ∙ sym (rubbed ∙ ap (λ b. if b then w ++ (x ∷ []) else w) c),
      )
      | inr c ↦ (
        record q { buf = set q.buf pos 0; rear = pos },
        take_one c
            ∙ ap (λ b. (if b then 0 else 1, record q { buf = set q.buf pos 0; rear = pos }))
                (sym (open_end ∙ ap not c)),
        record {
          room = length-set q.buf pos 0 ∙ v.room;
          front_in = v.front_in;
          rear_in = ground (arith, v.rear_in);
          fenced = set-zero q.buf pos (before q.front) v.fenced;
        },
        ap (window (set q.buf pos 0) 1024 q.front) shorter
            ∙ window-set_out q.buf 1024 q.front k k pos 0 v.front_in (omega arith) k_lt last
            ∙ sym (rubbed ∙ ap (λ b. if b then w ++ (x ∷ []) else w) c),
      )
    ]
      where
        pos : ℕ
        pos = before q.rear

        x : ℕ
        x = get_or q.buf pos 0

        k : ℕ
        k = gap 1024 q.front q.rear - 1

        w : List ℕ
        w = window q.buf 1024 q.front k

        k_lt : k < 1024
        k_lt = ground (arith, v.front_in, v.rear_in)

        last : pos ≡ place 1024 q.front k
        last = ground (arith, v.front_in, v.rear_in, e)

        shorter : gap 1024 q.front pos ≡ k
        shorter = ground (arith, v.front_in, v.rear_in, e)

        longer : gap 1024 q.front q.rear ≡ suc k
        longer = ground (arith, v.front_in, v.rear_in, e)

        whole : pending q ≡ w ++ (x ∷ [])
        whole =
            ap (window q.buf 1024 q.front) longer
            ∙ window-snoc q.buf 1024 q.front k v.front_in k_lt
            ∙ ap (λ i. w ++ (get_or q.buf i 0 ∷ [])) (sym last)

        open_end : ends_open (pending q) ≡ not (x == 0)
        open_end = ap ends_open whole ∙ ends_open-snoc w x

        rubbed : rub (pending q) ≡ (if x == 0 then w ++ (x ∷ []) else w)
        rubbed = ap rub whole ∙ rub-snoc w x

        pop : (x == 0) ≡ true → tty_pop_back q ≡ (1, q)
        pop c = rw (at_end, c) refl

        take_one :
            (x == 0) ≡ false → tty_pop_back q ≡ (0, record q { buf = set q.buf pos 0; rear = pos })
        take_one c = rw (at_end, c) refl
