-- ===== src/Co/Tests.antt =====
-- Runs of the coroutines.
use os_workbench.Base.{
  ℕ, ◌<◌, ◌≡◌, ◌≢◌, refl, arith, true, false, none, some, [], ◌∷◌, ◌++◌, length, update, All,
}
use os_workbench.Co.{Co, co_init, co_start, co_end, co_jmp, co_wait}
use os_workbench.Co.Inv.{Reach, begin, start, jump, wait}
use os_workbench.Co.Pool.{Reach-co_start, Reach-co_return}

abbrev raw : Co
raw = record { pool = []; pool_idx = 0; alive = λ _. false; current = 0; waiting = none }

-- Routine 99 is started, then routine 98, for which the main program waits, and 98 yields to 99.
abbrev two : (c : Co) × Reach c (98 ∷ 99 ∷ [])
unfolding co_init co_start
two = (_, start 98 (start 99 (begin raw) refl) refl)

abbrev back : Co
back = co_jmp 99 (co_wait 98 two.0)

back-Reach : Reach back (98 ∷ 99 ∷ [])
unfolding two co_wait co_jmp
back-Reach = jump 99 (wait 98 two.1) refl

Reach-co_start_example :
    (t : ℕ) × (c' : Co) × (co_start back ≡ some (t, c'))
    × All (λ u. u ≢ t) (98 ∷ 99 ∷ [])
    × (back.alive t ≡ false)
    × (c'.alive ≡ update back.alive t true)
    × (c'.current ≡ t)
Reach-co_start_example = Reach-co_start back-Reach (omega arith)

back-current : back.current ≡ 99
unfolding co_jmp
back-current = refl

back-Reach_current : Reach back ((98 ∷ []) ++ (back.current ∷ []))
unfolding co_jmp
back-Reach_current = back-Reach

back-waiting : back.waiting ≡ some 98
unfolding co_jmp co_wait co_init co_start
back-waiting = refl

-- Routine 99 ends, and `co_wait` returns though 98 has not.
Reach-co_return_example :
    (c' : Co) × (co_end back ≡ some c')
    × (back.pool_idx < length back.pool)
    × (c'.alive back.current ≡ false)
    × (c'.alive 98 ≡ false)
    × Reach c' ((98 ∷ []) ++ [])
Reach-co_return_example = Reach-co_return 98 (98 ∷ []) [] back-Reach_current back-waiting
