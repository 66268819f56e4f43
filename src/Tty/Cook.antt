-- ===== src/Tty/Cook.antt =====
-- The typed lines of a terminal, kernel/src/devices/tty/tty.c: the queue of bytes, each line ended by a
-- 0, that `tty_cook` fills and `tty_read` empties. `cooked` is the value of the semaphore of the lines
-- to be read; a read that finds it 0 waits. The semaphore `lock` is held over each operation, so each
-- is one step.
use os_workbench.Base.{
  ℕ, zero, suc, ◌+◌, ◌-◌, not, ◌&&◌, Option, none, some, List, [], ◌∷◌, ◌++◌, ◌==◌, ltb,
  if◌then◌else◌, get_or, set,
}

abbrev pub tty_cook_buf_sz : ℕ
tty_cook_buf_sz = 1024

-- `struct tty_queue`, the pointers as indices into its `buf`.
pub record Queue : Type 0 where
  pub buf : List ℕ
  pub front : ℕ
  pub rear : ℕ

-- The index after one, back at the start at the end.
abbrev pub forward : ℕ → ℕ
forward i = if (i + 1) == tty_cook_buf_sz then 0 else i + 1

-- none is `panic("tty queue full")`.
unfoldable pub tty_enqueue : Queue → ℕ → Option Queue
tty_enqueue q ch =
    let rear = forward q.rear in
    if rear == q.front
    then none
    else some (record q { buf = set (set q.buf q.rear ch) rear 0; rear = rear })

unfoldable pub tty_pop_back : Queue → ℕ × Queue
tty_pop_back q =
    let pos = if q.rear == 0 then tty_cook_buf_sz else q.rear in
    if not (q.front == tty_cook_buf_sz) && not (get_or q.buf (pos - 1) 0 == 0)
    then (0, record q { buf = set q.buf (pos - 1) 0; rear = pos - 1 })
    else (1, q)

-- The queue and the lines to be read.
pub record Lines : Type 0 where
  pub queue : Queue
  pub cooked : ℕ

abbrev then_queue {ℓ} : {A : Type ℓ} → Option Queue → (Queue → Option A) → Option A
then_queue none k = none
then_queue (some q) k = k q

-- What the case of '\0' does, into which the case of '\n' falls.
unfoldable pub end_line : ℕ → Queue → Option (ℕ × Lines)
unfolding tty_enqueue
end_line cooked q =
    then_queue (tty_enqueue q 0) (λ r. some (0, record { queue = r; cooked = cooked + 1 }))

-- `tty_cook`: what it returns (0 for a byte to be shown), and the lines.
unfoldable pub tty_cook : ℕ → Lines → Option (ℕ × Lines)
unfolding tty_enqueue tty_pop_back end_line
tty_cook ch t =
    if ch == 10
    then then_queue (tty_enqueue t.queue ch) (λ q. end_line t.cooked q)
    else if ch == 0
    then end_line t.cooked t.queue
    else if ch == 8
    then (let r = tty_pop_back t.queue in some (r.0, record t { queue = r.1 }))
    else then_queue (tty_enqueue t.queue ch) (λ q. some (0, record t { queue = q }))

-- The loop of `tty_read`: the new `front`, `nread` and the bytes copied, or none without fuel.
unfoldable pub read_loop : ℕ → List ℕ → (count front nread : ℕ) → List ℕ → Option (ℕ × ℕ × List ℕ)
read_loop zero buf count front nread out = none
read_loop (suc fuel) buf count front nread out =
    let ch = get_or buf front 0 in
    let out' = if ltb nread count && not (ch == 0) then out ++ (ch ∷ []) else out in
    let rest = read_loop fuel buf count (forward front) (nread + 1) out' in
    if ch == 0 then some (forward front, nread, out') else rest

pub data Read : Type 0 where
  got : (nread : ℕ) (bytes : List ℕ) (left : Lines) → Read
  waits : Read
  no_fuel : Read

abbrev read_end : Lines → Option (ℕ × ℕ × List ℕ) → Read
read_end t none = no_fuel
read_end t (some (front, nread, out)) =
    got nread out (record { queue = record t.queue { front = front }; cooked = t.cooked - 1 })

-- `tty_read`, with a buffer of `count` bytes.
unfoldable pub tty_read : ℕ → ℕ → Lines → Read
unfolding read_loop
tty_read fuel count t =
    if t.cooked == 0
    then waits
    else read_end t (read_loop fuel t.queue.buf count t.queue.front 0 [])
