-- ===== src/Alloc/Heap.antt =====
-- Any sequence of `kalloc` and `kfree` on any CPUs of kernel/src/alloc.c.
use os_workbench.Base.{
  ℕ, zero, suc, ◌+◌, ◌^◌, ◌≤◌, ◌<◌, ◌≡◌, refl, List, [], ◌∷◌, ◌++◌, arith, ap, ◌∙◌, sym, get_or,
  Option, none, some, update, set, length, replicate,
}
use mathlib.Core.Path.{subst₃}
use os_workbench.Alloc.{Block, word, align, Result, got, kalloc_real, kfree_real}
use os_workbench.Alloc.Cover.{inside, cover, kfree_real-bytes}
use os_workbench.Alloc.Total.{Served, Room, kalloc_real-Served}

-- The free lists by CPU, the global block, the blocks handed out, and by CPU the block whose `kfree` is
-- under way there.
pub record Heap : Type 0 where
  pub free : List (List Block)
  pub global : Block
  pub used : List Block
  pub frees : ℕ → Option Block

-- How many blocks of all lists hold the byte at `x`.
abbrev pub cover_all : ℕ → List (List Block) → ℕ
cover_all x [] = 0
cover_all x (l ∷ ls) = cover x l + cover_all x ls

abbrev pub total : ℕ → Heap → ℕ
total x h = cover_all x h.free + inside x h.global + cover x h.used

cover_all-set :
    (x i : ℕ) (ls : List (List Block)) (l : List Block)
    → i < length ls
    → cover_all x (set ls i l) + cover x (get_or ls i []) ≡ cover_all x ls + cover x l
cover_all-set x i [] l h = absurd (omega arith)
cover_all-set x zero (k ∷ ls) l h = omega arith
cover_all-set x (suc i) (k ∷ ls) l h = omega (arith, cover_all-set x i ls l (omega arith))

-- `kalloc` and `kfree` on CPU `i`; a block is freed once, by whoever has it, and may be freed on another
-- CPU than the one that handed it out. A `kfree` begins and ends in two steps, between which other CPUs
-- do theirs. No other call may use the list of its CPU meanwhile: `kalloc` has interrupts closed, but
-- for `kfree` only its callers can see to that, as it closes none.
pub data Step (h : Heap) : Heap → Type 0 where
  alloc :
      (i size : ℕ) (b g : Block) (l : List Block)
      → i < length h.free
      → h.frees i ≡ none
      → size ≤ 2 ^ 31
      → Room (align size 0x10) h.global
      → kalloc_real size (get_or h.free i []) h.global ≡ got b l g
      → Step h (record h { free = set h.free i l; global = g; used = b ∷ h.used })
  free_begins :
      (i : ℕ) (b : Block)
      → i < length h.free
      → h.frees i ≡ none
      → Step h (record h { frees = update h.frees i (some b) })
  free_ends :
      (i : ℕ) (b : Block) (before after : List Block)
      → i < length h.free
      → h.frees i ≡ some b
      → h.used ≡ before ++ (b ∷ after)
      → Step h (record {
        free = set h.free i (kfree_real b (get_or h.free i []));
        global = h.global;
        used = before ++ after;
        frees = update h.frees i none;
      })

-- `pmm_init`: the lists of the CPUs are empty, and the heap is the global block.
abbrev pub initial : ℕ → Block → Heap
initial cpus g = record { free = replicate cpus []; global = g; used = []; frees = λ _. none }

pub data Reach (start : Heap) : Heap → Type 0 where
  begin : Reach start start
  next : {h k : Heap} → Reach start h → Step h k → Reach start k

abbrev got_block : Result → Block
got_block (got b l g) = b
got_block _ = record { addr = 0; size = 0 }

abbrev got_free : Result → List Block
got_free (got b l g) = l
got_free _ = []

abbrev got_global : Result → Block
got_global (got b l g) = g
got_global _ = record { addr = 0; size = 0 }

-- What is known of the result that a request has.
served :
    (size : ℕ) (l l' : List Block) (g b g' : Block)
    → size ≤ 2 ^ 31
    → g.size < word
    → Room (align size 0x10) g
    → kalloc_real size l g ≡ got b l' g'
    → Served (align size 0x10) l g b l' g'
served size l l' g b g' h k r e =
    let (c, m, d, f, s) = kalloc_real-Served size l g h k r in
    let q : got c m d ≡ got b l' g' = sym f ∙ e in
    subst₃ (Served (align size 0x10) l g) (ap got_block q) (ap got_free q) (ap got_global q) s

cover-middle :
    (x : ℕ) (before after : List Block) (b : Block)
    → cover x (before ++ (b ∷ after)) ≡ inside x b + cover x (before ++ after)
cover-middle x [] after b = refl
cover-middle x (c ∷ before) after b = omega (arith, cover-middle x before after b)

record Sound (heap : Block) (h : Heap) : Type 0 where
  bytes : (x : ℕ) → total x h ≡ inside x heap
  small : h.global.size < word

Step-Sound : (heap : Block) {h k : Heap} → Sound heap h → Step h k → Sound heap k
Step-Sound heap {h} s (alloc i size b g l ib nb sb rb e) = record {
  bytes = λ x.
      let v = served size (get_or h.free i []) l h.global b g sb s.small rb e in
      omega (arith, s.bytes x, v.bytes x, cover_all-set x i h.free l ib);
  small = (served size (get_or h.free i []) l h.global b g sb s.small rb e).small;
}
Step-Sound heap {h} s (free_begins i b ib nb) = record { bytes = s.bytes; small = s.small }
Step-Sound heap {h} s (free_ends i b before after ib eb u) = record {
  bytes = λ x.
      let f = get_or h.free i [] in
      omega (
        arith,
        s.bytes x,
        ap (cover x) u,
        cover-middle x before after b,
        cover_all-set x i h.free (kfree_real b f) ib,
        kfree_real-bytes b f x,
      );
  small = s.small;
}

cover_all-replicate : (x n : ℕ) → cover_all x (replicate n []) ≡ 0
cover_all-replicate x zero = refl
cover_all-replicate x (suc n) = omega (arith, cover_all-replicate x n)

Reach-Sound :
    (cpus : ℕ) (g : Block) {h : Heap} → g.size < word → Reach (initial cpus g) h → Sound g h
Reach-Sound cpus g k begin = record {
  bytes = λ x. omega (arith, cover_all-replicate x cpus);
  small = k;
}
Reach-Sound cpus g k (next r st) = Step-Sound g (Reach-Sound cpus g k r) st

-- From empty free lists and a global block below 2 ^ 32 bytes, after any sequence of requests (each
-- of at most 2 ^ 31 bytes, with room in the global block) and frees of blocks handed out, on any
-- CPUs, each byte is in exactly as many blocks, free, global or handed out, as in the heap: one
-- inside, none outside. So the blocks handed out never overlap, and no byte is lost. The condition is
-- that from the begin of a `kfree` to its end no other call runs on the same CPU, which the callers
-- must see to, as `kfree` leaves interrupts open.
pub Reach-bytes :
    (cpus : ℕ) (g : Block) {h : Heap}
    → g.size < word
    → Reach (initial cpus g) h
    → (x : ℕ) → cover_all x h.free + inside x h.global + cover x h.used ≡ inside x g
Reach-bytes cpus g k r = (Reach-Sound cpus g k r).bytes
