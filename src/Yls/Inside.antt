-- ===== src/Yls/Inside.antt =====
-- Writing inside one block with kernel/src/yls/string.c, and reading it back.
use Prim.Native.Nat.{min}
use os_workbench.Base.{
  ℕ, zero, suc, ◌+◌, ◌-◌, ◌%◌, ◌≤◌, ◌<◌, ◌≡◌, refl, sym, ap, ◌∙◌, Option, some, List, [], ◌∷◌,
  arith, length, take, drop, length-take, length-drop, ==_refl,
}
use mathlib.Core.Option.{some-injective}
use os_workbench.Klib.Stdlib.{word}
use os_workbench.Disk.{rd_read, rd_write}
use os_workbench.Disk.Access.{rd_read-rd_write}
use os_workbench.Yls.{
  blk_mem, blk_sz, to_word, read_word, room, read_blocks, block_read, write_blocks, write_at,
  block_write,
}
use os_workbench.Yls.Chain.{
  read_in, room_at, find_first, followed, read_step, read_none, append_nil,
}

four_words : (l : List ℕ) → length l ≡ 4 → (w : ℕ) × (to_word l ≡ some w)
unfolding to_word
four_words [] e = absurd (omega (arith, e))
four_words (a ∷ []) e = absurd (omega (arith, e))
four_words (a ∷ b ∷ []) e = absurd (omega (arith, e))
four_words (a ∷ b ∷ c ∷ []) e = absurd (omega (arith, e))
four_words (a ∷ b ∷ c ∷ d ∷ []) e = (_, refl)
four_words (a ∷ b ∷ c ∷ d ∷ x ∷ l) e = absurd (omega (arith, e))

read_word-some :
    (rd : List ℕ) (off n : ℕ) (l : List ℕ)
    → off < word
    → rd_read rd off 4 ≡ some (n, l)
    → read_word rd off ≡ some (to_word l)
unfolding read_word
read_word-some rd off n l a e =
    let small : off % word ≡ off = omega arith in rw (small, read_word) (rw (e, read_word) refl)

-- Inside the disk four bytes are a word.
pub read_word_in :
    (rd : List ℕ) (off : ℕ)
    → length rd < word
    → off + 4 ≤ length rd
    → (w : ℕ) × (read_word rd off ≡ some (some w))
read_word_in rd off a b =
    let f =
      four_words (take 4 (drop off rd))
        (omega (arith, length-take 4 (drop off rd), length-drop off rd)) in
    (
      f.0,
      read_word-some rd off 4 (take 4 (drop off rd)) (omega arith) (read_in rd off 4 a b)
          ∙ ap some f.1,
    )

followed-zero :
    (fuel : ℕ) (rd bytes : List ℕ) (link : ℕ) → followed (suc fuel) rd bytes link 0 ≡ some bytes
followed-zero fuel rd bytes zero = refl
followed-zero fuel rd bytes (suc link) =
    rw (read_none fuel rd (suc link), followed) (ap some (append_nil bytes))

drop_all : (xs : List ℕ) → drop (length xs) xs ≡ []
drop_all [] = refl
drop_all (x ∷ xs) = drop_all xs

pub take_all : (xs : List ℕ) → take (length xs) xs ≡ xs
take_all [] = refl
take_all (x ∷ xs) = ap (λ t. x ∷ t) (take_all xs)

module _ (rd : List ℕ) (off : ℕ) (w : length rd < word) (h : off + 0x80 ≤ length rd) where
  read_here :
      (n : ℕ) → off % blk_sz + n ≤ blk_mem → read_blocks 2 rd off n ≡ some (take n (drop off rd))
  read_here zero l = read_none 1 rd off
  read_here (suc m) l =
      let link = read_word_in rd (off + blk_mem) w (omega arith) in
      read_step 1 rd off m (suc m) link.0 w
        (ap (λ r. min r (suc m)) (room_at off (omega arith)) ∙ omega arith) (omega arith) link.1
      ∙ ap (followed 1 rd (take (suc m) (drop off rd)) link.0) (omega arith)
      ∙ followed-zero 0 rd _ link.0

write_none : (fuel : ℕ) (rd : List ℕ) (off : ℕ) → write_blocks (suc fuel) rd off [] ≡ some (0, rd)
unfolding write_blocks
write_none fuel rd off = refl

write_round :
    (rd rd' : List ℕ) (off : ℕ) (s : List ℕ)
    → let to = min (room off) (length s) in
      rd_write rd off s to ≡ some (to, rd')
      → drop to s ≡ []
      → write_at 1 rd off s ≡ some (to + 0, rd')
unfolding write_at
write_round rd rd' off s e d =
    let to = min (room off) (length s) in
    rw (e, write_at)
      (rw (==_refl to, write_at)
        (rw (d, write_at) (rw (write_none 0 rd' ((off + to) % word), write_at) refl)))

write_here :
    (rd rd' : List ℕ) (off : ℕ) (s : List ℕ)
    → off % blk_sz + length s ≤ blk_mem
    → rd_write rd off s (length s) ≡ some (length s, rd')
    → write_at 1 rd off s ≡ some (length s, rd')
write_here rd rd' off s l e =
    let r = room_at off (omega arith) in
    let to : min (room off) (length s) ≡ length s = ap (λ k. min k (length s)) r ∙ omega arith in
    write_round rd rd' off s
      (ap (rd_write rd off s) to ∙ e ∙ ap {B = Option (ℕ × List ℕ)} (λ k. some (k, rd')) (sym to))
      (ap (λ k. drop k s) to ∙ drop_all s)
    ∙ ap {B = Option (ℕ × List ℕ)} (λ k. some (k, rd')) (omega (arith, to))

-- Bytes written inside one block, with at least the size of a block from their offset to the end of the
-- disk, are read back there; the disk keeps its size, and its bytes before and behind them.
pub block_read-block_write :
    (rd : List ℕ) (off shift : ℕ) (s : List ℕ)
    → length rd < word
    → off % blk_sz ≡ 0
    → off + shift + blk_sz ≤ length rd
    → shift + length s ≤ blk_mem
    → (rd' : List ℕ) × (block_write 1 rd off shift s ≡ some (length s, rd'))
      × (block_read 2 rd' off shift (length s) ≡ some s)
      × (length rd' ≡ length rd)
      × (take (off + shift) rd' ≡ take (off + shift) rd)
      × (drop (off + shift + length s) rd' ≡ drop (off + shift + length s) rd)
unfolding block_write block_read
block_read-block_write rd off shift s w al h l =
    let at = off + shift in
    let small : at % word ≡ at = omega arith in
    let r = rd_read-rd_write rd at s w (omega arith) in
    let n : min (length s) (length rd - at) ≡ length s = omega arith in
    let inside : at % blk_sz + length s ≤ blk_mem = omega arith in
    let size : length r.0 ≡ length rd = r.1.2 in
    let back : rd_read r.0 at (length s) ≡ some (length s, take (length s) s) =
      ap (rd_read r.0 at) (sym n)
      ∙ r.1.1
      ∙ ap {B = Option (ℕ × List ℕ)} (λ k. some (k, take k s)) n in
    let there = read_in r.0 at (length s) (omega (arith, size)) (omega (arith, size)) in
    let same : take (length s) (drop at r.0) ≡ s =
      ap (λ x. x.1) (some-injective _ _ (sym there ∙ back)) ∙ take_all s in
    (
      r.0,
      rw (find_first rd shift off (omega arith), block_write)
          (ap (λ o. write_at 1 rd o s) small
            ∙ write_here rd r.0 at s inside
                (r.1.0 ∙ ap {B = Option (ℕ × List ℕ)} (λ k. some (k, r.0)) n)),
      rw (find_first r.0 shift off (omega arith), block_read)
          (ap (λ o. read_blocks 2 r.0 o (length s)) small
            ∙ read_here r.0 at (omega (arith, size)) (omega (arith, size)) (length s) inside
            ∙ ap some same),
      size,
      r.1.3,
      ap (λ k. drop (at + k) r.0) (sym n) ∙ r.1.4 ∙ ap (λ k. drop (at + k) rd) n,
    )
