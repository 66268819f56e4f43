-- ===== src/Pipe/Fill.antt =====
-- Writes to the pipe of kernel/src/pipe.c.
use os_workbench.Base.{
  ℕ, suc, ◌+◌, ◌-◌, ◌≤◌, ◌<◌, ◌≡◌, refl, ◌≢◌, true, false, List, ◌++◌, arith, ◌==◌, ltb, take, drop,
  length, length-take, length-drop, take-append-drop, Bool-cases, inl, inr, ap, ◌∙◌,
}
use mathlib.Core.List.{append_assoc}
use os_workbench.Base.Window.{place, window}
use os_workbench.Pipe.{Pipe, get_size, put, wrote, waits, then_write, pipe_write}
use os_workbench.Pipe.Ring.{turn, length-put, window-put}
use os_workbench.Pipe.Drain.{IsValid, contents}

-- What a write of `bs` leaves.
pub record Filled (p q : Pipe) (bs : List ℕ) : Type 0 where
  pub valid : IsValid q
  pub held : contents q ≡ contents p ++ bs
  pub size : get_size q ≡ get_size p + length bs

abbrev after : Pipe → List ℕ → Pipe
after p bs = record p { mem = put p.mem p.tail bs; tail = p.tail + length bs }

tail-place : (p : Pipe) → IsValid p → turn p.tail ≡ place 0x100 (turn p.head) (get_size p)
unfolding get_size
tail-place p v = ground (arith, v.head_in, v.tail_in)

flat-Filled :
    (p : Pipe) (bs : List ℕ)
    → IsValid p
    → length bs + get_size p ≤ 0xff
    → length bs + p.tail ≤ 0x100
    → Filled p (after p bs) bs
unfolding get_size
flat-Filled p bs v a b =
    let s : get_size (after p bs) ≡ get_size p + length bs = omega (arith, v.head_in, v.tail_in) in
    record {
      valid = record {
        room = length-put p.mem p.tail bs ∙ v.room;
        head_in = v.head_in;
        tail_in = omega arith;
      };
      held = rw s (
          window-put bs p.mem (turn p.head) (get_size p) p.tail v.room (ground (arith, v.head_in))
            (omega arith) (omega arith) (tail-place p v));
      size = s;
    }

write_flat :
    (fuel : ℕ) (p : Pipe) (bs : List ℕ)
    → get_size p ≢ 0xff
    → length bs + get_size p ≤ 0xff
    → length bs + p.tail ≤ 0x100
    → pipe_write (suc fuel) p bs ≡ wrote (after p bs)
unfolding pipe_write
write_flat fuel p bs z a b =
    let e1 : (get_size p == 0xff) ≡ false = ground arith in
    let e2 : ltb 0xff (length bs + get_size p) ≡ false = ground arith in
    let e3 : ltb 0x100 (length bs + p.tail) ≡ false = ground arith in
    rw (pipe_write, e1, e2, e3) refl

-- One call of `pipe_write`: over the turn of the ring, of more than there is room for, and with none.
write_round :
    (fuel : ℕ) (p : Pipe) (bs : List ℕ)
    → get_size p ≢ 0xff
    → length bs + get_size p ≤ 0xff
    → ltb 0x100 (length bs + p.tail) ≡ true
    → pipe_write (suc fuel) p bs
      ≡ then_write
          (pipe_write fuel p (take (0x100 - p.tail) bs))
          (drop (0x100 - p.tail) bs)
          (λ q. pipe_write fuel (record q { tail = 0 }) (drop (0x100 - p.tail) bs))
unfolding pipe_write
write_round fuel p bs z a e =
    let e1 : (get_size p == 0xff) ≡ false = ground arith in
    let e2 : ltb 0xff (length bs + get_size p) ≡ false = ground arith in
    rw (pipe_write, e1, e2, e) refl

pub write_more :
    (fuel : ℕ) (p : Pipe) (bs : List ℕ)
    → get_size p ≢ 0xff
    → 0xff < length bs + get_size p
    → pipe_write (suc fuel) p bs
      ≡ then_write
          (pipe_write fuel p (take (0xff - get_size p) bs))
          (drop (0xff - get_size p) bs)
          (λ q. pipe_write fuel q (drop (0xff - get_size p) bs))
unfolding pipe_write
write_more fuel p bs z a =
    let e1 : (get_size p == 0xff) ≡ false = ground arith in
    let e2 : ltb 0xff (length bs + get_size p) ≡ true = ground arith in rw (pipe_write, e1, e2) refl

pub write_full :
    (fuel : ℕ) (p : Pipe) (bs : List ℕ)
    → get_size p ≡ 0xff
    → pipe_write (suc fuel) p bs ≡ waits p bs
unfolding pipe_write
write_full fuel p bs e =
    let e1 : (get_size p == 0xff) ≡ true = ground arith in rw (pipe_write, e1) refl

turned_tail :
    (p : Pipe) → p.head ≤ 0x100 → p.tail ≡ 0x100 → get_size (record p { tail = 0 }) ≡ get_size p
unfolding get_size
turned_tail p h e = omega arith

-- A write that there is room for, at most once over the turn of the ring.
pub write_fit :
    (fuel : ℕ) (p : Pipe) (bs : List ℕ)
    → IsValid p
    → get_size p ≢ 0xff
    → length bs + get_size p ≤ 0xff
    → (q : Pipe) × (pipe_write (suc (suc fuel)) p bs ≡ wrote q) × Filled p q bs
write_fit fuel p bs v z a = elim (Bool-cases (ltb 0x100 (length bs + p.tail))) [
  | inr e ↦
      let b : length bs + p.tail ≤ 0x100 = ground arith in
      (after p bs, write_flat (suc fuel) p bs z a b, flat-Filled p bs v a b)
  | inl e ↦
      let r = 0x100 - p.tail in
      let first = take r bs in
      let second = drop r bs in
      let n1 : length first ≡ r = ground (arith, length-take r bs) in
      let n2 : length second ≡ length bs - r = omega (arith, length-drop r bs) in
      let less : r < length bs = ground (arith, v.tail_in) in
      let p1 = after p first in
      let d1 = flat-Filled p first v (omega arith) (omega (arith, v.tail_in)) in
      let p2 = record p1 { tail = 0 } in
      let s2 : get_size p2 ≡ get_size p1 = turned_tail p1 v.head_in (omega (arith, v.tail_in)) in
      let v2 : IsValid p2 = record {
        room = d1.valid.room;
        head_in = v.head_in;
        tail_in = omega arith;
      } in
      let same : contents p2 ≡ contents p1 = ap (window p1.mem 0x100 (turn p.head)) s2 in
      let d2 = flat-Filled p2 second v2 (omega (arith, s2, d1.size)) (omega arith) in
      (
        after p2 second,
        rw
            (
              write_round (suc fuel) p bs z a e,
              write_flat fuel p first z (omega arith) (omega (arith, v.tail_in)),
              write_flat fuel p2 second (omega (arith, s2, d1.size)) (omega (arith, s2, d1.size))
                  (omega arith),
            )
            refl,
        record {
          valid = d2.valid;
          held =
              d2.held
              ∙ ap (λ w. w ++ second) (same ∙ d1.held)
              ∙ append_assoc (contents p) first second
              ∙ ap (λ w. contents p ++ w) (take-append-drop r bs);
          size = omega (arith, d2.size, s2, d1.size);
        },
      )
]
