-- ===== src/Yls.antt =====
-- The blocks of the disk format yls, kernel/src/yls/string.c, on the ramdisk. A block holds 0x7c bytes
-- and behind them the offset of the next one, with 0 at the end of a chain; the first 0x40 bytes of the
-- disk are a bit for each block that is in use. `none` is an access beyond the disk.
pub mod Bits
pub mod Alloc
pub mod Chain
pub mod Inside
pub mod Init
mod Tests
use Prim.Native.Nat.{min}
use os_workbench.Base.{
  ℕ, zero, suc, ◌+◌, ◌-◌, ◌*◌, ◌/◌, ◌%◌, Bool, true, false, not, Option, none, some, List, [], ◌∷◌,
  ◌++◌, ◌==◌, ltb, if◌then◌else◌, length, drop,
}
use os_workbench.Klib.Stdlib.{word}
use os_workbench.Disk.{rd_read, rd_write}

abbrev pub blk_mem : ℕ
blk_mem = 0x80 - 4

abbrev pub blk_sz : ℕ
blk_sz = 0x80

-- Four bytes as a 32-bit word, the lowest first; fewer are no word.
unfoldable pub to_word : List ℕ → Option ℕ
to_word (a ∷ b ∷ c ∷ d ∷ []) = some (a + 0x100 * (b + 0x100 * (c + 0x100 * d)))
to_word _ = none

unfoldable pub of_word : ℕ → List ℕ
of_word w = w % 0x100 ∷ w / 0x100 % 0x100 ∷ w / 0x10000 % 0x100 ∷ w / 0x1000000 % 0x100 ∷ []

-- `read(dev,off,&w,4)`: the word, or none if fewer than four bytes are read.
unfoldable pub read_word : List ℕ → ℕ → Option (Option ℕ)
read_word rd off = elim (rd_read rd (off % word) 4) [
  | none ↦ none
  | some (n, bytes) ↦ some (to_word bytes)
]

-- `b&(1<<j)`, and `b|=1<<j`, by the bits behind the lowest.
unfoldable pub bit : ℕ → ℕ → Bool
bit b zero = b % 2 == 1
bit b (suc j) = bit (b / 2) j

unfoldable pub set_bit : ℕ → ℕ → ℕ
set_bit b zero = if b % 2 == 1 then b else b + 1
set_bit b (suc j) = 2 * set_bit (b / 2) j + b % 2

-- The loop over `j`, with `n` bits still to see.
unfoldable pub clear_bit : ℕ → ℕ → ℕ → Option ℕ
clear_bit zero j b = none
clear_bit (suc n) j b = let rest = clear_bit n (j + 1) b in if bit b j then rest else some j

-- The loop over `i`, on the bytes of `avail` still to see: `i`, `j` and the byte.
unfoldable pub clear_byte : List ℕ → ℕ → Option (ℕ × ℕ × ℕ)
clear_byte [] i = none
clear_byte (b ∷ bs) i =
    let rest = clear_byte bs (i + 1) in
    if b == 0xff then rest else elim (clear_bit 8 0 b) [ none ↦ rest | some j ↦ some (i, j, b) ]

-- `dev->ops->write(dev,i,avail+i,1)`, and the block's offset.
abbrev pub marked : ℕ → Option (ℕ × List ℕ) → Option (ℕ × List ℕ)
marked ret none = none
marked ret (some (n, rd)) = some (ret, rd)

abbrev pub taken : List ℕ → Option (ℕ × ℕ × ℕ) → Option (ℕ × List ℕ)
taken rd none = some (0, rd)
taken rd (some (i, j, b)) = marked ((8 * i + j) * 0x80) (rd_write rd i (set_bit b j ∷ []) 1)

-- `new_block`: the offset, 0 with none free, and the disk. A disk of less than 0x40 bytes leaves
-- `avail` without values, which is a fault here.
unfoldable pub new_block : List ℕ → Option (ℕ × List ℕ)
new_block rd = elim (rd_read rd 0 0x40) [
  | none ↦ none
  | some (n, avail) ↦ if n == 0x40 then taken rd (clear_byte avail 0) else none
]

-- `find_block` on fuel, with the offset in the block and the block that it leaves. Its result, that a
-- read failed, is not used by its callers.
unfoldable pub find_block : ℕ → List ℕ → (fd_off off : ℕ) → Option (ℕ × ℕ)
find_block zero rd fd_off off = none
find_block (suc fuel) rd fd_off off = elim (ltb blk_mem fd_off) [
  | false ↦ some (fd_off, off)
  | true ↦ elim (read_word rd (off + blk_mem)) [
    | none ↦ none
    | some none ↦ some (fd_off, off)
    | some (some next) ↦ find_block fuel rd (fd_off - blk_mem) next
  ]
]

-- `BLK_MEM-(off)%BLK_SZ`, which wraps.
unfoldable pub room : ℕ → ℕ
room off = (blk_mem + word - off % blk_sz) % word

-- The loop of `block_read` on fuel: the bytes that are counted as read.
unfoldable pub read_blocks : ℕ → List ℕ → (off rest : ℕ) → Option (List ℕ)
read_blocks zero rd off rest = none
read_blocks (suc fuel) rd off zero = some []
read_blocks (suc fuel) rd off (suc more) =
    let rest = suc more in
    let to_read = min (room off) rest in
    elim (rd_read rd off to_read) [
      | none ↦ none
      | some (n, bytes) ↦ elim (n == to_read) [
        | false ↦ some []
        | true ↦ elim (read_word rd (off + blk_mem)) [
          | none ↦ none
          | some none ↦ some bytes
          | some (some zero) ↦ some bytes
          | some (some (suc next)) ↦ elim (read_blocks fuel rd (suc next) (rest - to_read)) [
            | none ↦ none
            | some bs ↦ some (bytes ++ bs)
          ]
        ]
      ]
    ]

-- `block_read`: the bytes, whose number it returns.
unfoldable pub block_read : ℕ → List ℕ → (off shift nbyte : ℕ) → Option (List ℕ)
block_read fuel rd off shift nbyte = elim (find_block (suc shift) rd shift off) [
  | none ↦ none
  | some (fd_off, at_block) ↦ read_blocks fuel rd ((at_block + fd_off) % word) nbyte
]

-- A new block that is linked at `off`, the end of the last one. The code tests `off` for a full disk.
abbrev pub extended : ℕ → Option (ℕ × List ℕ) → Option (Bool × ℕ × List ℕ)
extended off none = none
extended off (some (new_off, rd)) = elim (rd_write rd off (of_word new_off) 4) [
  | none ↦ none
  | some (n, rd') ↦ some (not (off == 0), new_off, rd')
]

-- The next block of `block_write`: the one that is linked at `off`, or a new one.
unfoldable pub next_block : List ℕ → ℕ → Option (Bool × ℕ × List ℕ)
next_block rd off = elim (read_word rd off) [
  | none ↦ none
  | some none ↦ extended off (new_block rd)
  | some (some zero) ↦ extended off (new_block rd)
  | some (some (suc next)) ↦ some (true, suc next, rd)
]

-- The loop of `block_write` on fuel, for the bytes still to write: how many more it counts, and the
-- disk.
unfoldable pub write_blocks : ℕ → List ℕ → ℕ → List ℕ → Option (ℕ × List ℕ)
write_blocks zero rd off s = none
write_blocks (suc fuel) rd off [] = some (0, rd)
write_blocks (suc fuel) rd off (c ∷ s) = elim (next_block rd off) [
  | none ↦ none
  | some (false, new_off, rd1) ↦ some (0, rd1)
  | some (true, new_off, rd1) ↦
      let to_write = min blk_mem (suc (length s)) in
      elim (rd_write rd1 new_off (c ∷ s) to_write) [
        | none ↦ none
        | some (n, rd2) ↦ elim (n == to_write) [
          | false ↦ some (0, rd2)
          | true ↦
              elim (write_blocks fuel rd2 ((new_off + to_write) % word) (drop to_write (c ∷ s))) [
                | none ↦ none
                | some (k, rd3) ↦ some (to_write + k, rd3)
              ]
        ]
      ]
]

-- `block_write` from the offset that `find_block` leaves.
unfoldable pub write_at : ℕ → List ℕ → ℕ → List ℕ → Option (ℕ × List ℕ)
write_at fuel rd off s =
    let to_write = min (room off) (length s) in
    elim (rd_write rd off s to_write) [
      | none ↦ none
      | some (n, rd1) ↦ elim (n == to_write) [
        | false ↦ some (0, rd1)
        | true ↦ elim (write_blocks fuel rd1 ((off + to_write) % word) (drop to_write s)) [
          | none ↦ none
          | some (k, rd2) ↦ some (to_write + k, rd2)
        ]
      ]
    ]

-- `block_write` of the bytes `s`: the number that it returns, and the disk.
unfoldable pub block_write : ℕ → List ℕ → (off shift : ℕ) → List ℕ → Option (ℕ × List ℕ)
block_write fuel rd off shift s = elim (find_block (suc shift) rd shift off) [
  | none ↦ none
  | some (fd_off, at_block) ↦ write_at fuel rd ((at_block + fd_off) % word) s
]
