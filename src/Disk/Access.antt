-- ===== src/Disk/Access.antt =====
-- Reads and writes of the ramdisk.
use os_workbench.Base.{
  ℕ, zero, suc, ◌+◌, ◌-◌, ◌%◌, ◌≤◌, ◌<◌, ◌≡◌, refl, none, some, List, [], ◌∷◌, ◌++◌, arith, ltb,
  leb, take, drop, length, length-append, length-take, length-drop, ap, ◌∙◌, true, false,
}
use Prim.Native.Nat.{min}
use mathlib.Core.List.{append_assoc}
use os_workbench.Klib.Stdlib.{word}
use os_workbench.Disk.{boundary_check, clipped, rd_read, rd_write}

pub clipped-min :
    (rd : List ℕ) (offset count : ℕ)
    → length rd < word
    → offset ≤ length rd
    → clipped rd offset count ≡ min count (length rd - offset)
unfolding clipped boundary_check
clipped-min rd offset count a b =
    let e : (length rd + word - offset) % word ≡ length rd - offset = omega (arith, a, b) in
    rw e (ground arith)

-- At an offset inside the disk or at its end a read copies as many bytes as asked for, or those up to
-- the end.
pub rd_read-take :
    (rd : List ℕ) (offset count : ℕ)
    → length rd < word
    → offset ≤ length rd
    → rd_read rd offset count
      ≡ some
          (min count (length rd - offset), take (min count (length rd - offset)) (drop offset rd))
unfolding rd_read
rd_read-take rd offset count a b =
    let c = clipped-min rd offset count a b in
    let ok : leb (offset + min count (length rd - offset)) (length rd) ≡ true = ground arith in
    rw (c, ok) refl

-- The part of a list from where another ends.
drop-length : (n : ℕ) (l r : List ℕ) → length l ≡ n → drop n (l ++ r) ≡ r
drop-length zero [] r e = refl
drop-length zero (x ∷ l) r e = absurd (omega (arith, e))
drop-length (suc n) [] r e = absurd (omega (arith, e))
drop-length (suc n) (x ∷ l) r e = drop-length n l r (omega (arith, e))

take-length : (n : ℕ) (l r : List ℕ) → length l ≡ n → take n (l ++ r) ≡ l
take-length zero [] r e = refl
take-length zero (x ∷ l) r e = absurd (omega (arith, e))
take-length (suc n) [] r e = absurd (omega (arith, e))
take-length (suc n) (x ∷ l) r e = ap (λ t. x ∷ t) (take-length n l r (omega (arith, e)))

-- What is written at an offset inside the disk, as far as the disk goes, is read back there; the disk
-- keeps its size, and its bytes before and behind what is written.
pub rd_read-rd_write :
    (rd : List ℕ) (offset : ℕ) (buf : List ℕ)
    → length rd < word
    → offset ≤ length rd
    → (rd' : List ℕ) × (let n = min (length buf) (length rd - offset) in
        (rd_write rd offset buf (length buf) ≡ some (n, rd'))
        × (rd_read rd' offset n ≡ some (n, take n buf))
        × (length rd' ≡ length rd)
        × (take offset rd' ≡ take offset rd)
        × (drop (offset + n) rd' ≡ drop (offset + n) rd))
unfolding rd_write
rd_read-rd_write rd offset buf a b = (
  whole,
  (written, read_back, same_size, take_front, drop-length (offset + n) (front ++ body) back ends),
)
  where
    n : ℕ
    n = min (length buf) (length rd - offset)

    front : List ℕ
    front = take offset rd

    body : List ℕ
    body = take n buf

    back : List ℕ
    back = drop (offset + n) rd

    whole : List ℕ
    whole = front ++ body ++ back

    starts : length front ≡ offset
    starts = omega (arith, length-take offset rd, b)

    holds : length body ≡ n
    holds = omega (arith, length-take n buf)

    ends : length (front ++ body) ≡ offset + n
    ends = omega (arith, length-append front body, starts, holds)

    same_size : length whole ≡ length rd
    same_size =
        omega (arith, length-append (front ++ body) back, ends, length-drop (offset + n) rd, b)

    written : rd_write rd offset buf (length buf) ≡ some (n, whole)
    written =
        let c = clipped-min rd offset (length buf) a b in
        let ok : leb (offset + n) (length rd) ≡ true = ground (arith, b) in rw (c, ok) refl

    apart : whole ≡ front ++ (body ++ back)
    apart = append_assoc front body back

    take_front : take offset whole ≡ front
    take_front = ap (take offset) apart ∙ take-length offset front (body ++ back) starts

    behind : drop offset whole ≡ body ++ back
    behind = ap (drop offset) apart ∙ drop-length offset front (body ++ back) starts

    all : min n (length whole - offset) ≡ n
    all = omega (arith, same_size)

    read_back : rd_read whole offset n ≡ some (n, body)
    read_back =
        rd_read-take whole offset n (omega (arith, same_size, a)) (omega (arith, same_size, b))
        ∙ ap (λ k. some (k, take k (drop offset whole))) all
        ∙ ap (λ l. some (n, l)) (ap (take n) behind ∙ take-length n body back holds)

-- At an offset beyond the end the bytes behind it wrap round, so a read of at least one byte is not
-- clipped, while it asks for no more than they then are, and goes beyond the disk.
pub rd_read-beyond :
    (rd : List ℕ) (offset count : ℕ)
    → length rd < offset
    → offset < word
    → 0 < count
    → count + offset ≤ length rd + word
    → rd_read rd offset count ≡ none
unfolding rd_read clipped boundary_check
rd_read-beyond rd offset count a b c d =
    let e : (length rd + word - offset) % word ≡ length rd + word - offset = omega (arith, a, b) in
    let f : ltb (length rd + word - offset) count ≡ false = ground (arith, d) in
    let g : leb (offset + count) (length rd) ≡ false = ground (arith, a) in rw (e, f, g) refl
