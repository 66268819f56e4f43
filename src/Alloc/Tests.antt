-- ===== src/Alloc/Tests.antt =====
-- Requests and frees, as kernel/src/alloc.c serves them.
use os_workbench.Base.{◌+◌, ◌-◌, ◌≡◌, refl, arith, some, List, [], ◌∷◌}
use os_workbench.Alloc.{Block, align, find, got, kalloc_real}
use os_workbench.Alloc.Cover.{inside, cover}
use os_workbench.Alloc.Total.{Served, kalloc_real-Served}
use os_workbench.Alloc.Heap.{
  Heap, Reach, begin, next, alloc, free_begins, free_ends, initial, cover_all, Reach-bytes,
}

abbrev small : Block
small = record { addr = 0x1000; size = 16 }

abbrev large : Block
large = record { addr = 0x2000; size = 100 }

abbrev cut : Block
cut = record { addr = 0x2000 + 100 - 32; size = 32 }

abbrev rest : Block
rest = record { addr = 0x2000; size = 52 }

found : find 32 (small ∷ large ∷ []) ≡ some (cut, small ∷ rest ∷ [])
unfolding find
found = refl

abbrev memory : Block
memory = record { addr = 0x10000; size = 0x10_0000 }

kalloc_real-Served_example :
    (b : Block) × (free' : List Block) × (g' : Block) × (kalloc_real 100 [] memory ≡ got b free' g')
    × Served (align 100 0x10) [] memory b free' g'
kalloc_real-Served_example =
    kalloc_real-Served 100 [] memory (omega arith) (omega arith) (omega arith)

-- A request of 100 bytes cuts 112 from a page, and the block is freed again.
abbrev page : Block
page = record { addr = 0x10000 + 0x10_0000 - 8192; size = 8192 }

abbrev handed : Block
handed = record { addr = page.addr + 8192 - 112; size = 112 }

abbrev page_rest : Block
page_rest = record { addr = page.addr; size = 8192 - 128 }

abbrev memory_rest : Block
memory_rest = record { addr = 0x10000; size = 0x10_0000 - 8208 }

request : kalloc_real 100 [] memory ≡ got handed (page_rest ∷ []) memory_rest
unfolding kalloc_real
request = refl

abbrev used_and_freed : (h : Heap) × Reach (initial 2 memory) h
used_and_freed = (
  _,
  next
      (next
        (next begin (
          alloc 1 100 handed memory_rest (page_rest ∷ []) (omega arith) refl (omega arith)
            (omega arith) request))
        (free_begins 0 handed (omega arith) refl))
      (free_ends 0 handed [] [] (omega arith) refl refl),
)

Reach-bytes_example :
    let h = used_and_freed.0 in
    cover_all 0x20000 h.free + inside 0x20000 h.global + cover 0x20000 h.used
    ≡ inside 0x20000 memory
Reach-bytes_example = Reach-bytes 2 memory (omega arith) used_and_freed.1 0x20000
