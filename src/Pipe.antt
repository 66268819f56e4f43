-- ===== src/Pipe.antt =====
-- The pipes of kernel/src/pipe.c. A call is one step up to the `_yield` of a loop that waits: the
-- result is then `blocks`, and the call goes on from the top when another has changed the pipe. The
-- nested calls of `pipe_read` and `pipe_write` run on fuel.
pub mod Ring
pub mod Drain
pub mod Fill
pub mod Queue
mod Tests
use os_workbench.Base.{
  ℕ, zero, suc, ◌+◌, ◌-◌, ◌%◌, Bool, true, false, List, [], ◌∷◌, ◌++◌, ◌==◌, ltb, if◌then◌else◌,
  get_or, set, take, drop, length, replicate,
}

pub record Pipe : Type 0 where
  pub head : ℕ
  pub tail : ℕ
  pub is_open : Bool
  pub mem : List ℕ

-- `pipe`; the allocator clears the memory. The two descriptors on it are left out.
abbrev pub pipe : Pipe
pipe = record { head = 0; tail = 0; is_open = true; mem = replicate 0x100 0 }

unfoldable pub get_size : Pipe → ℕ
get_size p = (p.tail + 0x100 - p.head) % 0x100

-- `memcpy` out of the ring's memory, and into it.
abbrev pub slice : List ℕ → ℕ → ℕ → List ℕ
slice m i zero = []
slice m i (suc n) = get_or m i 0 ∷ slice m (i + 1) n

abbrev pub put : List ℕ → ℕ → List ℕ → List ℕ
put m i [] = m
put m i (b ∷ bs) = put (set m i b) (i + 1) bs

-- The bytes read, the pipe, or what the call waits for.
pub data Read : Type 0 where
  got : List ℕ → Pipe → Read
  blocks : Read
  out_of_fuel : Read

abbrev pub then_read : Read → (List ℕ → Pipe → Read) → Read
then_read (got bs p) k = k bs p
then_read blocks k = blocks
then_read out_of_fuel k = out_of_fuel

unfoldable pub pipe_read : ℕ → Pipe → ℕ → Read
pipe_read zero p count = out_of_fuel
pipe_read (suc fuel) p count =
    let size = get_size p in
    elim (size == 0) [
      | true ↦ if p.is_open then blocks else got [] p
      | false ↦ elim (ltb size count) [
        | true ↦ pipe_read fuel p size
        | false ↦ elim (ltb 0x100 (count + p.head)) [
          | true ↦
              let remain = 0x100 - p.head in
              then_read (pipe_read fuel p remain) (λ bs q.
                then_read (pipe_read fuel (record q { head = 0 }) (count - remain))
                  (λ cs r. got (bs ++ cs) r))
          | false ↦ got (slice p.mem p.head count) (record p { head = p.head + count })
        ]
      ]
    ]

-- The pipe with all bytes written, or with the bytes that wait for room.
pub data Write : Type 0 where
  wrote : Pipe → Write
  waits : Pipe → List ℕ → Write
  no_fuel : Write

-- Whatever the first of two calls leaves waiting goes before what the second writes. (The code's first
-- calls have room.)
abbrev pub then_write : Write → List ℕ → (Pipe → Write) → Write
then_write (wrote p) bs k = k p
then_write (waits p rest) bs k = waits p (rest ++ bs)
then_write no_fuel bs k = no_fuel

unfoldable pub pipe_write : ℕ → Pipe → List ℕ → Write
pipe_write zero p bs = no_fuel
pipe_write (suc fuel) p bs =
    let size = get_size p in
    elim (size == 0xff) [
      | true ↦ waits p bs
      | false ↦ elim (ltb 0xff (length bs + size)) [
        | true ↦
            let remain = 0xff - size in
            then_write (pipe_write fuel p (take remain bs)) (drop remain bs)
              (λ q. pipe_write fuel q (drop remain bs))
        | false ↦ elim (ltb 0x100 (length bs + p.tail)) [
          | true ↦
              let remain = 0x100 - p.tail in
              then_write (pipe_write fuel p (take remain bs)) (drop remain bs)
                (λ q. pipe_write fuel (record q { tail = 0 }) (drop remain bs))
          | false ↦ wrote (record p { mem = put p.mem p.tail bs; tail = p.tail + length bs })
        ]
      ]
    ]

-- `pipe_iclose`
unfoldable pub pipe_iclose : Pipe → Pipe
pipe_iclose p = record p { is_open = false }
