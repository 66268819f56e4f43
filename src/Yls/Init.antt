-- ===== src/Yls/Init.antt =====
-- A fresh disk: `yls_init` of kernel/src/yls/yls.c.
use Prim.Native.Nat.{min}
use os_workbench.Base.{
  ℕ, zero, suc, ◌+◌, ◌-◌, ◌/◌, ◌≤◌, ◌<◌, ◌≡◌, refl, sym, ap, ◌∙◌, Option, none, some, List, [], ◌∷◌,
  ◌++◌, ◌==◌, leb, if◌then◌else◌, arith, length, take, drop, replicate, set,
}
use mathlib.Core.Option.{some-injective}
use os_workbench.Klib.Stdlib.{word}
use os_workbench.Disk.{rd_read, rd_write}
use os_workbench.Disk.Access.{rd_read-rd_write}
use os_workbench.Yls.{of_word, clear_bit, clear_byte, marked, taken, new_block, bit, set_bit}
use os_workbench.Yls.Chain.{read_in}
use os_workbench.Yls.Inside.{take_all}
use os_workbench.Yls.Alloc.{new_block-taken, read_avail, rd_write-set}

abbrev pub root_inode : List ℕ
root_inode = of_word 1 ++ of_word 0x480 ++ of_word 8 ++ of_word 0

abbrev pub root_name : List ℕ
root_name = b'/' ∷ replicate 0x7f 0

-- The bitmap from byte `i` on, `n` bytes of it: the first byte is full, and so are those from `full`.
unfoldable pub bitmap : (n i full : ℕ) → List ℕ
bitmap zero i full = []
bitmap (suc n) i full =
    (if i == 0 then 0xff else if leb full i then 0xff else 0) ∷ bitmap n (i + 1) full

abbrev pub write_after : Option (ℕ × List ℕ) → ℕ → List ℕ → Option (ℕ × List ℕ)
write_after none off bytes = none
write_after (some (n, rd)) off bytes = rd_write rd off bytes (length bytes)

abbrev pub written : Option (ℕ × List ℕ) → Option (List ℕ)
written none = none
written (some (n, rd)) = some rd

unfoldable pub yls_init : List ℕ → Option (List ℕ)
yls_init rd = written (
    write_after (write_after (rd_write rd 0x40 root_inode (length root_inode)) 0x400 root_name) 0
      (bitmap 0x40 0 (length rd / 0x80 / 8)))

-- A write that fits, by what it leaves.
fits :
    (rd : List ℕ) (off : ℕ) (bytes : List ℕ)
    → length rd < word
    → off + length bytes ≤ length rd
    → (rd' : List ℕ) × (rd_write rd off bytes (length bytes) ≡ some (length bytes, rd'))
      × (length rd' ≡ length rd)
      × (rd_read rd' off (length bytes) ≡ some (length bytes, take (length bytes) bytes))
      × (drop (off + length bytes) rd' ≡ drop (off + length bytes) rd)
fits rd off bytes a b =
    let r = rd_read-rd_write rd off bytes a (omega arith) in
    let n : min (length bytes) (length rd - off) ≡ length bytes = omega arith in
    (
      r.0,
      r.1.0 ∙ ap {B = Option (ℕ × List ℕ)} (λ k. some (k, r.0)) n,
      r.1.2,
      ap (rd_read r.0 off) (sym n)
          ∙ r.1.1
          ∙ ap {B = Option (ℕ × List ℕ)} (λ k. some (k, take k bytes)) n,
      ap (λ k. drop (off + k) r.0) (sym n) ∙ r.1.4 ∙ ap (λ k. drop (off + k) rd) n,
    )

drop_nil : (n : ℕ) → ◌≡◌ {A = List ℕ} (drop n []) []
drop_nil zero = refl
drop_nil (suc n) = refl

drop-drop : (m n : ℕ) (xs : List ℕ) → drop m (drop n xs) ≡ drop (n + m) xs
drop-drop m zero xs = ap (λ k. drop k xs) (omega arith)
drop-drop m (suc n) [] = drop_nil m ∙ sym (drop_nil (suc n + m))
drop-drop m (suc n) (x ∷ xs) =
    drop-drop m n xs ∙ ap (λ k. drop k (x ∷ xs)) {x = suc (n + m)} (omega arith)

-- What stands behind the bytes that a write changed is read as before.
read_behind :
    (rd rd' : List ℕ) (w off n : ℕ)
    → length rd < word
    → length rd' ≡ length rd
    → drop w rd' ≡ drop w rd
    → w ≤ off
    → off + n ≤ length rd
    → rd_read rd' off n ≡ rd_read rd off n
read_behind rd rd' w off n a l d b e =
    let k : w + (off - w) ≡ off = omega arith in
    read_in rd' off n (omega (arith, l)) (omega (arith, l))
    ∙ ap {B = Option (ℕ × List ℕ)} (λ bs. some (n, take n bs))
        (ap (λ o. drop o rd') (sym k)
          ∙ sym (drop-drop (off - w) w rd')
          ∙ ap (drop (off - w)) d
          ∙ drop-drop (off - w) w rd
          ∙ ap (λ o. drop o rd) k)
    ∙ sym (read_in rd off n a e)

clear_two : (y : ℕ) (t : List ℕ) → y ≡ 0 → clear_byte (0xff ∷ y ∷ t) 0 ≡ some (1, 0, 0)
unfolding clear_byte clear_bit bit
clear_two y t e = rw e (ap (λ v. some (1, 0, v)) e)

-- Only the first byte of a bitmap is full if those from `full` on are behind the second.
first_clear : (n full : ℕ) → 2 ≤ full → clear_byte (bitmap (suc (suc n)) 0 full) 0 ≡ some (1, 0, 0)
unfolding bitmap
first_clear n full l =
    let e : (if leb full 1 then 0xff else 0) ≡ 0 = ground arith in clear_two _ (bitmap n 2 full) e

length-bitmap : (n i full : ℕ) → length (bitmap n i full) ≡ n
unfolding bitmap
length-bitmap zero i full = refl
length-bitmap (suc n) i full = ap suc (length-bitmap n (i + 1) full)

size-root_inode : length root_inode ≡ 16
unfolding of_word
size-root_inode = refl

size-root_name : length root_name ≡ 0x80
size-root_name = refl

-- On a disk of at least 16 blocks `yls_init` succeeds and leaves the name of the root directory in the
-- block at 0x400, and this block is the first that `new_block` then gives.
pub yls_init-new_block :
    (rd : List ℕ)
    → length rd < word
    → 0x800 ≤ length rd
    → (rd1 rd2 : List ℕ) × (yls_init rd ≡ some rd1)
      × (rd_read rd1 0x400 0x80 ≡ some (0x80, root_name))
      × (new_block rd1 ≡ some (0x400, rd2))
unfolding yls_init set_bit
yls_init-new_block rd w l =
    let full = length rd / 0x80 / 8 in
    let m = length-bitmap 0x40 0 full in
    let a = fits rd 0x40 root_inode w (omega (arith, size-root_inode)) in
    let b = fits a.0 0x400 root_name (omega (arith, a.2)) (omega (arith, a.2, size-root_name)) in
    let c =
      fits b.0 0 (bitmap 0x40 0 full) (omega (arith, a.2, b.2)) (omega (arith, a.2, b.2, m)) in
    let big : 0x40 ≤ length c.0 = omega (arith, a.2, b.2, c.2) in
    let small : length c.0 < word = omega (arith, a.2, b.2, c.2) in
    let read : rd_read c.0 0 0x40 ≡ some (0x40, take 0x40 (bitmap 0x40 0 full)) =
      ap (rd_read c.0 0) (sym m)
      ∙ c.3
      ∙ ap {B = Option (ℕ × List ℕ)} (λ k. some (k, take k (bitmap 0x40 0 full))) m in
    let map : take 0x40 c.0 ≡ bitmap 0x40 0 full =
      ap (λ x. x.1) (some-injective _ _ (sym (read_avail c.0 small big) ∙ read))
      ∙ ap (λ k. take k (bitmap 0x40 0 full)) (sym m)
      ∙ take_all (bitmap 0x40 0 full) in
    let clear = ap (λ bs. clear_byte bs 0) map ∙ first_clear 62 full (omega arith) in
    (
      c.0,
      set c.0 1 1,
      ap written (
          ap (λ x. write_after (write_after x 0x400 root_name) 0 (bitmap 0x40 0 full)) a.1
          ∙ ap (λ x. write_after x 0 (bitmap 0x40 0 full)) b.1
          ∙ c.1),
      read_behind b.0 c.0 (0 + length (bitmap 0x40 0 full)) 0x400 0x80 (omega (arith, a.2, b.2)) c.2
            c.4 (omega (arith, m)) (omega (arith, a.2, b.2))
          ∙ b.3,
      new_block-taken c.0 small big
          ∙ ap (taken c.0) clear
          ∙ ap (marked 0x400) (rd_write-set c.0 1 1 small (omega (arith, big))),
    )
