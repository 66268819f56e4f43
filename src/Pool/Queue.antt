-- ===== src/Pool/Queue.antt =====
-- The pool of pool.c as a bounded first-in first-out queue.
use os_workbench.Base.{
  ℕ, ◌<◌, ◌≡◌, Option, none, some, List, [], ◌∷◌, ◌++◌, arith, ◌==◌, if◌then◌else◌, length,
  length-set,
}
use mathlib.Core.Option
use os_workbench.Base.Window.{gap, window, length-window, window-pos, window-set}
use os_workbench.Pool.{Pool, pool_len, dequeue, enqueue}

pub record IsValid (p : Pool) : Type 0 where
  pub room : length p.mem ≡ pool_len
  pub head_in : p.head < pool_len
  pub tail_in : p.tail < pool_len

-- The pointers that the pool holds, oldest first.
abbrev pub contents : Pool → List ℕ
contents p = window p.mem pool_len p.head (gap pool_len p.head p.tail)

-- The queue that the pool is meant to be.
unfoldable pub pop : List ℕ → ℕ × List ℕ
pop [] = (0, [])
pop (x ∷ q) = (x, q)

unfoldable pub push : List ℕ → ℕ → Option (List ℕ)
push q x = if length q == 19 then none else some (q ++ (x ∷ []))

-- `dequeue` and `enqueue` keep the indices inside the array.
pub dequeue-IsValid : {p : Pool} → IsValid p → IsValid (dequeue p).1
unfolding dequeue
dequeue-IsValid v = ground arith

pub enqueue-IsValid : {p q : Pool} (x : ℕ) → IsValid p → enqueue p x ≡ some q → IsValid q
unfolding enqueue
enqueue-IsValid {p} x v e = ground (arith, length-set p.mem p.tail x)

-- On a valid pool `dequeue` takes the oldest pointer, NULL if there is none.
pub dequeue-pop :
    {p : Pool} → IsValid p → let (x, q) = dequeue p in (x, contents q) ≡ pop (contents p)
unfolding dequeue pop
dequeue-pop {p} v = ground (arith, window-pos p.mem pool_len p.head (gap pool_len p.head p.tail))

-- On a valid pool `enqueue` waits exactly when 19 pointers are held, and else adds at the end.
pub enqueue-push :
    {p : Pool} (x : ℕ) → IsValid p → Option.map contents (enqueue p x) ≡ push (contents p) x
unfolding enqueue push
enqueue-push {p} x v = ground (
  arith,
  length-window p.mem pool_len p.head (gap pool_len p.head p.tail),
  window-set p.mem pool_len p.head (gap pool_len p.head p.tail) p.tail x,
)
