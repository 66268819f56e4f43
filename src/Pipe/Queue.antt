-- ===== src/Pipe/Queue.antt =====
-- The pipe of kernel/src/pipe.c as a queue of at most 255 bytes.
use os_workbench.Base.{
  ℕ, zero, suc, ◌-◌, ◌≤◌, ◌≡◌, refl, ◌||◌, List, [], ◌∷◌, ◌++◌, arith, ◌==◌, ltb, if◌then◌else◌,
  take, drop, length, length-take, Bool-cases, inl, inr, ap, ◌∙◌, sym, ==→eq, ==→ne,
}
use mathlib.Core.List.{append-nil}
use os_workbench.Base.Window.{window, length-window}
use os_workbench.Pipe.{Pipe, get_size, got, blocks, pipe_read, wrote, waits, pipe_write}
use os_workbench.Pipe.Ring.{turn}
use os_workbench.Pipe.Drain.{IsValid, contents, read_there, read_more, read_none, get_size-lt}
use os_workbench.Pipe.Fill.{write_fit, write_more, write_full}

take_over : (n : ℕ) (xs : List ℕ) → length xs ≤ n → take n xs ≡ xs
take_over zero [] h = refl
take_over zero (x ∷ xs) h = absurd (omega arith)
take_over (suc n) [] h = refl
take_over (suc n) (x ∷ xs) h = ap (λ t. x ∷ t) (take_over n xs (omega arith))

drop_over : (n : ℕ) (xs : List ℕ) → length xs ≤ n → drop n xs ≡ []
drop_over zero [] h = refl
drop_over zero (x ∷ xs) h = absurd (omega arith)
drop_over (suc n) [] h = refl
drop_over (suc n) (x ∷ xs) h = drop_over n xs (omega arith)

length-contents : (p : Pipe) → length (contents p) ≡ get_size p
length-contents p = length-window p.mem 0x100 (turn p.head) (get_size p)

-- A read of up to `n` bytes from a valid pipe ends. From an empty pipe it waits while the pipe is open,
-- and returns nothing when it is closed; else it returns the oldest `n` bytes, or all if they are
-- fewer. It leaves a valid pipe with the bytes behind them.
pub pipe_read-take :
    (p : Pipe) (n : ℕ)
    → IsValid p
    → (q : Pipe) × (pipe_read 4 p n ≡ (
        if get_size p == 0
        then (if p.is_open then blocks else got [] p)
        else got (take n (contents p)) q))
      × IsValid q
      × (contents q ≡ drop n (contents p))
pipe_read-take p n v = elim (Bool-cases (get_size p == 0)) [
  | inl e ↦
      let z = ==→eq (get_size p) 0 e in
      let none : contents p ≡ [] = ap (window p.mem 0x100 (turn p.head)) z in
      (
        p,
        rw e (read_none 3 p n z),
        v,
        none ∙ sym (drop_over n (contents p) (omega (arith, length-contents p, z))),
      )
  | inr e ↦
      let z = ==→ne (get_size p) 0 e in
      elim (Bool-cases (ltb (get_size p) n)) [
        | inr f ↦
            let (q, eq, d) = read_there 2 p n v z (ground arith) in (q, rw e eq, d.valid, d.left)
        | inl f ↦
            let (q, eq, d) = read_there 1 p (get_size p) v z (omega arith) in
            let all : take (get_size p) (contents p) ≡ take n (contents p) =
              take_over (get_size p) (contents p) (omega (arith, length-contents p))
              ∙ sym (take_over n (contents p) (ground (arith, length-contents p))) in
            let gone : drop (get_size p) (contents p) ≡ drop n (contents p) =
              drop_over (get_size p) (contents p) (omega (arith, length-contents p))
              ∙ sym (drop_over n (contents p) (ground (arith, length-contents p))) in
            (
              q,
              rw e (read_more 3 p n z (ground arith) ∙ eq ∙ ap (λ bs. got bs q) all),
              d.valid,
              d.left ∙ gone,
            )
      ]
]

-- A write to a valid pipe ends. With room for all bytes it is done; else it fills the pipe up to 255
-- bytes and waits with the others. The bytes written come behind those that the pipe held, and it
-- stays valid.
pub pipe_write-append :
    (p : Pipe) (bs : List ℕ)
    → IsValid p
    → (q : Pipe) × (pipe_write 4 p bs ≡ (
        if (get_size p == 0xff) || ltb (0xff - get_size p) (length bs)
        then waits q (drop (0xff - get_size p) bs)
        else wrote q))
      × IsValid q
      × (contents q ≡ contents p ++ take (0xff - get_size p) bs)
pipe_write-append p bs v = elim (Bool-cases (get_size p == 0xff)) [
  | inl e ↦
      let full = ==→eq (get_size p) 0xff e in
      let r : 0xff - get_size p ≡ 0 = omega arith in
      (p, rw (e, r) (write_full 3 p bs full), v, rw r (sym (append-nil (contents p))))
  | inr e ↦
      let z = ==→ne (get_size p) 0xff e in
      elim (Bool-cases (ltb (0xff - get_size p) (length bs))) [
        | inr f ↦
            let (q, eq, d) = write_fit 2 p bs v z (ground (arith, get_size-lt p)) in
            let all = take_over (0xff - get_size p) bs (ground arith) in
            (q, rw (e, f) eq, d.valid, rw all (d.held))
        | inl f ↦
            let first = take (0xff - get_size p) bs in
            let n : length first ≡ 0xff - get_size p =
              ground (arith, length-take (0xff - get_size p) bs) in
            let (q, eq, d) = write_fit 1 p first v z (omega (arith, get_size-lt p)) in
            (
              q,
              rw
                  (
                    e,
                    f,
                    write_more 3 p bs z (ground (arith, get_size-lt p)),
                    eq,
                    write_full 2 q (drop (0xff - get_size p) bs)
                        (omega (arith, d.size, get_size-lt p)),
                  )
                  refl,
              d.valid,
              d.held,
            )
      ]
]
