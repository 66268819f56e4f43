-- ===== src/Disk.antt =====
-- The ramdisk, kernel/src/devices/ramdisk/ramdisk.c: a disk is the list of its bytes, from `start` to
-- `end`. An offset and a size are 32-bit words; none is an access beyond the disk.
pub mod Access
mod Tests
use os_workbench.Base.{
  ℕ, ◌+◌, ◌-◌, ◌%◌, ◌^◌, Option, none, some, List, [], ◌∷◌, ◌++◌, ltb, leb, if◌then◌else◌, take,
  drop, length,
}
use os_workbench.Klib.Stdlib.{word}

-- The bytes behind an offset, which wraps for an offset beyond the disk.
unfoldable pub boundary_check : List ℕ → (offset : ℕ) → ℕ
boundary_check rd offset = (length rd + word - offset) % word

-- How many bytes a call moves.
unfoldable pub clipped : List ℕ → (offset count : ℕ) → ℕ
clipped rd offset count =
    if ltb (boundary_check rd offset) count then boundary_check rd offset else count

-- The number of bytes, and the bytes copied.
unfoldable pub rd_read : List ℕ → (offset count : ℕ) → Option (ℕ × List ℕ)
rd_read rd offset count =
    let n = clipped rd offset count in
    if leb (offset + n) (length rd) then some (n, take n (drop offset rd)) else none

-- The number of bytes, and the disk. `buf` has at least `count` bytes.
unfoldable pub rd_write : List ℕ → (offset : ℕ) → (buf : List ℕ) → (count : ℕ) → Option (ℕ × List ℕ)
rd_write rd offset buf count =
    let n = clipped rd offset count in
    if leb (offset + n) (length rd)
    then some (n, take offset rd ++ take n buf ++ drop (offset + n) rd)
    else none
