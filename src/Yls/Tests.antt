-- ===== src/Yls/Tests.antt =====
-- Disks of a few blocks.
use os_workbench.Base.{
  ℕ, ◌*◌, ◌≤◌, ◌<◌, ◌≡◌, refl, ◌⊎◌, true, false, some, List, [], ◌∷◌, ◌++◌, ◌==◌, if◌then◌else◌,
  arith, length, take, drop, get_or, replicate,
}
use os_workbench.Disk.{rd_read, clipped, boundary_check}
use os_workbench.Yls.{to_word, read_word, new_block, block_read, block_write}
use os_workbench.Yls.Alloc.{used, new_block_lowest}
use os_workbench.Yls.Chain.{content, IsChain, block_read-content}
use os_workbench.Yls.Inside.{block_read-block_write}
use os_workbench.Yls.Init.{yls_init, root_name, yls_init-new_block}

-- The first nine blocks are in use.
abbrev nine_used : List ℕ
nine_used = 0xff ∷ 1 ∷ replicate 62 0

new_block_lowest_example :
    ((new_block nine_used ≡ some (0, nine_used)) × ((k : ℕ) → k < 0x200 → used nine_used k ≡ true))
    ⊎ ((k : ℕ) × (rd' : List ℕ) × (new_block nine_used ≡ some (k * 0x80, rd'))
        × (k < 0x200)
        × (used nine_used k ≡ false)
        × ((l : ℕ) → l < k → used nine_used l ≡ true)
        × ((l : ℕ) → used rd' l ≡ (if l == k then true else used nine_used l))
        × ((q : ℕ) → 0x40 ≤ q → get_or rd' q 0 ≡ get_or nine_used q 0)
        × (length rd' ≡ length nine_used))
new_block_lowest_example = new_block_lowest nine_used (omega arith) (omega arith)

-- A chain of the blocks 0x80 and 0x100.
abbrev two_blocks : List ℕ
two_blocks =
    replicate 0x80 0
    ++ replicate 0x7c 5
    ++ (0 ∷ 1 ∷ 0 ∷ 0 ∷ [])
    ++ replicate 0x7c 6
    ++ replicate 4 0

two_blocks-IsChain : IsChain two_blocks 0x80 (0x100 ∷ [])
unfolding read_word to_word rd_read clipped boundary_check
two_blocks-IsChain =
    ((refl, omega arith), refl, (λ q. absurd (omega arith)), ((refl, omega arith), refl))

block_read-content_example :
    block_read 3 two_blocks 0x80 0 0x180 ≡ some (take 0x180 (content two_blocks 0x80 (0x100 ∷ [])))
block_read-content_example =
    block_read-content two_blocks 0x80 0x180 (0x100 ∷ []) (omega arith) two_blocks-IsChain

abbrev zeros : List ℕ
zeros = replicate 0x800 0

abbrev three : List ℕ
three = 1 ∷ 2 ∷ 3 ∷ []

block_read-block_write_example :
    (rd' : List ℕ) × (block_write 1 two_blocks 0x80 3 three ≡ some (3, rd'))
    × (block_read 2 rd' 0x80 3 3 ≡ some three)
    × (length rd' ≡ length two_blocks)
    × (take 0x83 rd' ≡ take 0x83 two_blocks)
    × (drop 0x86 rd' ≡ drop 0x86 two_blocks)
block_read-block_write_example =
    block_read-block_write two_blocks 0x80 3 three (omega arith) refl (omega arith) (omega arith)

yls_init-new_block_example :
    (rd1 rd2 : List ℕ) × (yls_init zeros ≡ some rd1)
    × (rd_read rd1 0x400 0x80 ≡ some (0x80, root_name))
    × (new_block rd1 ≡ some (0x400, rd2))
yls_init-new_block_example = yls_init-new_block zeros (omega arith) (omega arith)
