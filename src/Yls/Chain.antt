-- ===== src/Yls/Chain.antt =====
-- Reading and writing chains of blocks with kernel/src/yls/string.c.
use Prim.Native.Nat.{min}
use os_workbench.Base.{
  ℕ, zero, suc, ◌+◌, ◌-◌, ◌%◌, ◌≤◌, ◌<◌, ◌≡◌, refl, sym, ap, ◌∙◌, ◌≢◌, false, Option, none, some,
  List, [], ◌∷◌, ◌++◌, ltb, arith, length, take, drop, length-take, length-drop, Bool-cases, inl,
  inr, ==_refl, ltb→lt, ltb→le,
}
use os_workbench.Klib.Stdlib.{word}
use os_workbench.Disk.{rd_read}
use os_workbench.Disk.Access.{rd_read-take}
use os_workbench.Yls.{blk_mem, blk_sz, read_word, find_block, room, read_blocks, block_read}

-- A block that lies inside the disk.
abbrev pub IsBlock : List ℕ → ℕ → Type 0
IsBlock rd b = (b % blk_sz ≡ 0) × (b + blk_sz ≤ length rd)

-- A chain of blocks, each with the link to the next and the last with 0.
abbrev pub IsChain : List ℕ → ℕ → List ℕ → Type 0
IsChain rd b [] = IsBlock rd b × (read_word rd (b + blk_mem) ≡ some (some 0))
IsChain rd b (c ∷ cs) =
    IsBlock rd b × (read_word rd (b + blk_mem) ≡ some (some c)) × (c ≢ 0) × IsChain rd c cs

-- The bytes that a chain holds.
abbrev pub content : List ℕ → ℕ → List ℕ → List ℕ
content rd b [] = take blk_mem (drop b rd)
content rd b (c ∷ cs) = take blk_mem (drop b rd) ++ content rd c cs

-- Reading inside a block.
pub read_in :
    (rd : List ℕ) (off n : ℕ)
    → length rd < word
    → off + n ≤ length rd
    → rd_read rd off n ≡ some (n, take n (drop off rd))
read_in rd off n a b =
    let e : min n (length rd - off) ≡ n = omega arith in
    rd_read-take rd off n a (omega arith)
    ∙ ap {B = Option (ℕ × List ℕ)} (λ k. some (k, take k (drop off rd))) e

pub room_at : (off : ℕ) → off % blk_sz ≤ blk_mem → room off ≡ blk_mem - off % blk_sz
unfolding room
room_at off a = omega arith

pub find_first :
    (rd : List ℕ) (shift off : ℕ)
    → shift ≤ blk_mem
    → find_block (suc shift) rd shift off ≡ some (shift, off)
unfolding find_block
find_first rd shift off a =
    let e : ltb blk_mem shift ≡ false = ground arith in rw (e, find_block) refl

-- What a round of `block_read` that read `bytes` comes to.
abbrev pub followed : ℕ → List ℕ → List ℕ → ℕ → ℕ → Option (List ℕ)
followed fuel rd bytes zero rest = some bytes
followed fuel rd bytes (suc next) rest = elim (read_blocks fuel rd (suc next) rest) [
  | none ↦ none
  | some bs ↦ some (bytes ++ bs)
]

read_round :
    (fuel : ℕ) (rd : List ℕ) (off more link : ℕ)
    → length rd < word
    → off + min (room off) (suc more) ≤ length rd
    → read_word rd (off + blk_mem) ≡ some (some link)
    → let to = min (room off) (suc more) in
      read_blocks (suc fuel) rd off (suc more)
      ≡ followed fuel rd (take to (drop off rd)) link (suc more - to)
unfolding read_blocks
read_round fuel rd off more zero w i e =
    let to = min (room off) (suc more) in
    rw (read_in rd off to w i, read_blocks)
      (rw (==_refl to, read_blocks) (rw (e, read_blocks) refl))
read_round fuel rd off more (suc next) w i e =
    let to = min (room off) (suc more) in
    rw (read_in rd off to w i, read_blocks)
      (rw (==_refl to, read_blocks) (rw (e, read_blocks) refl))

pub read_step :
    (fuel : ℕ) (rd : List ℕ) (off more to link : ℕ)
    → length rd < word
    → min (room off) (suc more) ≡ to
    → off + to ≤ length rd
    → read_word rd (off + blk_mem) ≡ some (some link)
    → read_blocks (suc fuel) rd off (suc more)
      ≡ followed fuel rd (take to (drop off rd)) link (suc more - to)
read_step fuel rd off more to link w r i e =
    read_round fuel rd off more link w (omega (arith, i, r)) e
    ∙ ap (λ t. followed fuel rd (take t (drop off rd)) link (suc more - t)) r

followed-some :
    (fuel : ℕ) (rd bytes bs : List ℕ) (link rest : ℕ)
    → link ≢ 0
    → read_blocks fuel rd link rest ≡ some bs
    → followed fuel rd bytes link rest ≡ some (bytes ++ bs)
followed-some fuel rd bytes bs zero rest nz e = absurd (nz refl)
followed-some fuel rd bytes bs (suc link) rest nz e = rw (e, followed) refl

pub append_nil : (xs : List ℕ) → xs ++ [] ≡ xs
append_nil [] = refl
append_nil (x ∷ xs) = ap (λ t. x ∷ t) (append_nil xs)

-- Nothing more to read.
pub read_none : (fuel : ℕ) (rd : List ℕ) (off : ℕ) → read_blocks (suc fuel) rd off 0 ≡ some []
unfolding read_blocks
read_none fuel rd off = refl

take-take : (m n : ℕ) (xs : List ℕ) → m ≤ n → take m (take n xs) ≡ take m xs
take-take zero n xs l = refl
take-take (suc m) zero xs l = absurd (omega arith)
take-take (suc m) (suc n) [] l = refl
take-take (suc m) (suc n) (x ∷ xs) l = ap (λ t. x ∷ t) (take-take m n xs (omega arith))

take_nil : (n : ℕ) → ◌≡◌ {A = List ℕ} (take n []) []
take_nil zero = refl
take_nil (suc n) = refl

take_long : (n : ℕ) (xs : List ℕ) → length xs ≤ n → take n xs ≡ xs
take_long n [] l = take_nil n
take_long zero (x ∷ xs) l = absurd (omega arith)
take_long (suc n) (x ∷ xs) l = ap (λ t. x ∷ t) (take_long n xs (omega arith))

take-append : (m : ℕ) (xs ys : List ℕ) → m ≤ length xs → take m (xs ++ ys) ≡ take m xs
take-append zero xs ys l = refl
take-append (suc m) [] ys l = absurd (omega arith)
take-append (suc m) (x ∷ xs) ys l = ap (λ t. x ∷ t) (take-append m xs ys (omega arith))

take-append_past :
    (m n : ℕ) (xs ys : List ℕ) → length xs ≡ n → n ≤ m → take m (xs ++ ys) ≡ xs ++ take (m - n) ys
take-append_past m zero [] ys e l = ap (λ k. take k ys) (omega arith)
take-append_past m (suc n) [] ys e l = absurd (omega (arith, e))
take-append_past zero n (x ∷ xs) ys e l = absurd (omega (arith, e))
take-append_past (suc m) zero (x ∷ xs) ys e l = absurd (omega (arith, e))
take-append_past (suc m) (suc n) (x ∷ xs) ys e l =
    ap (λ t. x ∷ t)
      (take-append_past m n xs ys (omega (arith, e)) (omega arith)
        ∙ ap (λ k. xs ++ take k ys) (omega arith))

-- `block_read` from the start of a chain with a round for each block and one more.
read_blocks-content :
    (rd : List ℕ) (b n : ℕ) (cs : List ℕ)
    → length rd < word
    → IsChain rd b cs
    → read_blocks (suc (suc (length cs))) rd b n ≡ some (take n (content rd b cs))
unfolding read_blocks
read_blocks-content rd b zero cs w ch = refl
read_blocks-content rd b (suc m) [] w (k, e) =
    let r = ap (λ r. min r (suc m)) (room_at b (omega (arith, k.0))) in
    elim (Bool-cases (ltb blk_mem (suc m))) [
      | inl y ↦
          let more = ltb→lt blk_mem (suc m) y in
          read_step 1 rd b m blk_mem 0 w (r ∙ omega (arith, k.0, more)) (omega (arith, k.1)) e
          ∙ ap some (
              sym (
                take_long (suc m) (take blk_mem (drop b rd))
                  (omega (arith, length-take blk_mem (drop b rd), more))))
      | inr y ↦
          let less = ltb→le blk_mem (suc m) y in
          read_step 1 rd b m (suc m) 0 w (r ∙ omega (arith, k.0, less)) (omega (arith, k.1, less)) e
          ∙ ap some (sym (take-take (suc m) blk_mem (drop b rd) less))
    ]
read_blocks-content rd b (suc m) (c ∷ cs) w (k, e, nz, ch) =
    let r = ap (λ r. min r (suc m)) (room_at b (omega (arith, k.0))) in
    let held : length (take blk_mem (drop b rd)) ≡ blk_mem =
      omega (arith, length-take blk_mem (drop b rd), length-drop b rd, k.1) in
    elim (Bool-cases (ltb blk_mem (suc m))) [
      | inl y ↦
          let more = ltb→lt blk_mem (suc m) y in
          read_step (suc (suc (length cs))) rd b m blk_mem c w (r ∙ omega (arith, k.0, more))
            (omega (arith, k.1)) e
          ∙ followed-some (suc (suc (length cs))) rd _ _ c (suc m - blk_mem) nz
              (read_blocks-content rd c (suc m - blk_mem) cs w ch)
          ∙ ap some (sym (take-append_past (suc m) blk_mem _ _ held (omega (arith, more))))
      | inr y ↦
          let less = ltb→le blk_mem (suc m) y in
          let done : suc m - suc m ≡ 0 = omega arith in
          read_step (suc (suc (length cs))) rd b m (suc m) c w (r ∙ omega (arith, k.0, less))
            (omega (arith, k.1, less)) e
          ∙ followed-some (suc (suc (length cs))) rd _ [] c (suc m - suc m) nz (
              ap (read_blocks (suc (suc (length cs))) rd c) done ∙ read_none (suc (length cs)) rd c)
          ∙ ap some (
              append_nil _
              ∙ sym (take-take (suc m) blk_mem (drop b rd) less)
              ∙ sym (take-append (suc m) _ _ (omega (arith, held, less))))
    ]

first-IsBlock : (rd : List ℕ) (b : ℕ) (cs : List ℕ) → IsChain rd b cs → IsBlock rd b
first-IsBlock rd b [] (k, e) = k
first-IsBlock rd b (c ∷ cs) h = h.0

-- `block_read` from the start of a chain of blocks inside the disk reads the first `n` of the bytes
-- that the chain holds, or all of them if there are fewer, in a round for each block and one more.
pub block_read-content :
    (rd : List ℕ) (b n : ℕ) (cs : List ℕ)
    → length rd < word
    → IsChain rd b cs
    → block_read (suc (suc (length cs))) rd b 0 n ≡ some (take n (content rd b cs))
unfolding block_read
block_read-content rd b n cs w ch =
    let small : (b + 0) % word ≡ b = omega (arith, (first-IsBlock rd b cs ch).1) in
    rw (find_first rd 0 b (omega arith), block_read)
      (ap (λ o. read_blocks (suc (suc (length cs))) rd o n) small
        ∙ read_blocks-content rd b n cs w ch)
