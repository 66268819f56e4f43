-- ===== src/Pool/Tests.antt =====
-- Runs of the pool of kernel/src/pool.c.
use os_workbench.Base.{◌≡◌, refl, arith, [], ◌∷◌, replicate, set}
use os_workbench.Pool.{Pool, dequeue}
use os_workbench.Pool.Queue.{IsValid, contents, pop, dequeue-pop}

-- Two pointers, the second behind the turn of the array.
abbrev turned : Pool
turned = record { mem = set (set (replicate 20 0) 19 7) 0 8; head = 19; tail = 1 }

turned-IsValid : IsValid turned
turned-IsValid = record { room = refl; head_in = omega arith; tail_in = omega arith }

contents-turned : contents turned ≡ 7 ∷ 8 ∷ []
contents-turned = refl

dequeue-pop_example : ((dequeue turned).0, contents (dequeue turned).1) ≡ pop (contents turned)
dequeue-pop_example = dequeue-pop turned-IsValid
