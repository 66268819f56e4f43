-- ===== src/Disk/Tests.antt =====
-- Runs of a small disk.
use os_workbench.Base.{ℕ, ◌+◌, ◌-◌, ◌≡◌, some, none, List, [], ◌∷◌, arith, take, drop, length}
use Prim.Native.Nat.{min}
use os_workbench.Disk.{rd_read, rd_write}
use os_workbench.Disk.Access.{rd_read-rd_write, rd_read-beyond}

abbrev disk : List ℕ
disk = 1 ∷ 2 ∷ 3 ∷ 4 ∷ []

abbrev bytes : List ℕ
bytes = 7 ∷ 8 ∷ 9 ∷ []

rd_read-rd_write_example :
    (rd : List ℕ) × (let n = min (length bytes) (length disk - 2) in
      (rd_write disk 2 bytes (length bytes) ≡ some (n, rd))
      × (rd_read rd 2 n ≡ some (n, take n bytes))
      × (length rd ≡ length disk)
      × (take 2 rd ≡ take 2 disk)
      × (drop (2 + n) rd ≡ drop (2 + n) disk))
rd_read-rd_write_example = rd_read-rd_write disk 2 bytes (omega arith) (omega arith)

beyond : rd_read disk 6 1 ≡ none
beyond = rd_read-beyond disk 6 1 (omega arith) (omega arith) (omega arith) (omega arith)
