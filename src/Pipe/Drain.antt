-- ===== src/Pipe/Drain.antt =====
-- Reads of the pipe of kernel/src/pipe.c as a queue of bytes.
use os_workbench.Base.{
  ℕ, suc, ◌+◌, ◌-◌, ◌≤◌, ◌<◌, ◌≡◌, refl, ◌≢◌, true, false, List, [], ◌++◌, arith, ◌==◌, ltb,
  if◌then◌else◌, take, drop, length, Bool-cases, inl, inr, ap, ◌∙◌, sym,
}
use os_workbench.Base.Window.{window}
use os_workbench.Pipe.{Pipe, get_size, got, blocks, then_read, pipe_read}
use os_workbench.Pipe.Ring.{turn, window-slice, take-take, drop-drop}

pub record IsValid (p : Pipe) : Type 0 where
  pub room : length p.mem ≡ 0x100
  pub head_in : p.head ≤ 0x100
  pub tail_in : p.tail ≤ 0x100

-- The bytes in the pipe, oldest first.
abbrev pub contents : Pipe → List ℕ
contents p = window p.mem 0x100 (turn p.head) (get_size p)

-- What is left behind a read of `n` bytes.
pub record Drained (p q : Pipe) (n : ℕ) : Type 0 where
  pub valid : IsValid q
  pub left : contents q ≡ drop n (contents p)
  pub size : get_size q ≡ get_size p - n

flat-Drained :
    (p : Pipe) (n : ℕ)
    → IsValid p
    → n ≤ get_size p
    → n + p.head ≤ 0x100
    → Drained p (record p { head = p.head + n }) n
unfolding get_size
flat-Drained p n v a b =
    let s : get_size (record p { head = p.head + n }) ≡ get_size p - n =
      omega (arith, v.head_in, v.tail_in) in
    record {
      valid = record { room = v.room; head_in = omega arith; tail_in = v.tail_in };
      left = rw s ((window-slice n p.mem p.head (get_size p) (omega arith) a).1);
      size = s;
    }

read_flat :
    (fuel : ℕ) (p : Pipe) (n : ℕ)
    → get_size p ≢ 0
    → n ≤ get_size p
    → n + p.head ≤ 0x100
    → pipe_read (suc fuel) p n ≡ got (take n (contents p)) (record p { head = p.head + n })
unfolding pipe_read
read_flat fuel p n z a b =
    let e1 : (get_size p == 0) ≡ false = ground arith in
    let e2 : ltb (get_size p) n ≡ false = ground arith in
    let e3 : ltb 0x100 (n + p.head) ≡ false = ground arith in
    rw (pipe_read, e1, e2, e3, (window-slice n p.mem p.head (get_size p) (omega arith) a).0) refl

pub get_size-lt : (p : Pipe) → get_size p < 0x100
unfolding get_size
get_size-lt p = omega arith

-- With the head at the end of the memory, the pipe is as with the head at its start.
pub turned_size :
    (p : Pipe) (r : ℕ)
    → p.head + r ≡ 0x100
    → get_size (record p { head = 0 }) ≡ get_size (record p { head = p.head + r })
unfolding get_size
turned_size p r e = omega arith

turned :
    (p : Pipe) (r : ℕ)
    → p.head + r ≡ 0x100
    → contents (record p { head = p.head + r }) ≡ contents (record p { head = 0 })
turned p r e = let t : turn (p.head + r) ≡ 0 = ground arith in rw (t, sym (turned_size p r e)) refl

-- One call of `pipe_read`: a read over the turn of the ring, and one of more than is there.
read_round :
    (fuel : ℕ) (p : Pipe) (n : ℕ)
    → get_size p ≢ 0
    → n ≤ get_size p
    → ltb 0x100 (n + p.head) ≡ true
    → pipe_read (suc fuel) p n
      ≡ then_read (pipe_read fuel p (0x100 - p.head)) (λ bs q.
        then_read
          (pipe_read fuel (record q { head = 0 }) (n - (0x100 - p.head)))
          (λ cs r. got (bs ++ cs) r))
unfolding pipe_read
read_round fuel p n z a e =
    let e1 : (get_size p == 0) ≡ false = ground arith in
    let e2 : ltb (get_size p) n ≡ false = ground arith in rw (pipe_read, e1, e2, e) refl

pub read_more :
    (fuel : ℕ) (p : Pipe) (n : ℕ)
    → get_size p ≢ 0
    → get_size p < n
    → pipe_read (suc fuel) p n ≡ pipe_read fuel p (get_size p)
unfolding pipe_read
read_more fuel p n z a =
    let e1 : (get_size p == 0) ≡ false = ground arith in
    let e2 : ltb (get_size p) n ≡ true = ground arith in rw (pipe_read, e1, e2) refl

pub read_none :
    (fuel : ℕ) (p : Pipe) (n : ℕ)
    → get_size p ≡ 0
    → pipe_read (suc fuel) p n ≡ (if p.is_open then blocks else got [] p)
unfolding pipe_read
read_none fuel p n e = let e1 : (get_size p == 0) ≡ true = ground arith in rw (pipe_read, e1) refl

-- A read of bytes that are there, at most one of them behind the turn of the ring.
pub read_there :
    (fuel : ℕ) (p : Pipe) (n : ℕ)
    → IsValid p
    → get_size p ≢ 0
    → n ≤ get_size p
    → (q : Pipe) × (pipe_read (suc (suc fuel)) p n ≡ got (take n (contents p)) q) × Drained p q n
read_there fuel p n v z a = elim (Bool-cases (ltb 0x100 (n + p.head))) [
  | inr e ↦
      let b : n + p.head ≤ 0x100 = ground arith in
      (record p { head = p.head + n }, read_flat (suc fuel) p n z a b, flat-Drained p n v a b)
  | inl e ↦
      let r = 0x100 - p.head in
      let less : r < n = ground (arith, v.head_in) in
      let p1 = record p { head = p.head + r } in
      let p2 = record p { head = 0 } in
      let d1 = flat-Drained p r v (omega arith) (omega (arith, v.head_in)) in
      let same : contents p1 ≡ contents p2 = turned p r (omega (arith, v.head_in)) in
      let z2 : get_size p2 ≡ get_size p - r =
        (turned_size p r (omega (arith, v.head_in))) ∙ d1.size in
      let v2 : IsValid p2 = record { room = v.room; head_in = omega arith; tail_in = v.tail_in } in
      let d2 = flat-Drained p2 (n - r) v2 (omega (arith, z2)) (omega (arith, a, get_size-lt p)) in
      (
        record p2 { head = 0 + (n - r) },
        rw
            (
              read_round (suc fuel) p n z a e,
              read_flat fuel p r z (omega arith) (omega (arith, v.head_in)),
              read_flat fuel p2 (n - r) (omega (arith, z2)) (omega (arith, z2))
                  (omega (arith, a, get_size-lt p)),
            )
            (ap (λ bs. got bs (record p2 { head = 0 + (n - r) }))
              (ap (λ w. take r (contents p) ++ take (n - r) w) (sym same ∙ d1.left)
                ∙ take-take r (n - r) (contents p)
                ∙ ap (λ k. take k (contents p)) (omega arith))),
        record {
          valid = d2.valid;
          left =
              d2.left
              ∙ ap (drop (n - r)) (sym same ∙ d1.left)
              ∙ drop-drop r (n - r) (contents p)
              ∙ ap (λ k. drop k (contents p)) (omega arith);
          size = omega (arith, d2.size, z2);
        },
      )
]
