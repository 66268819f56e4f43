-- ===== src/Co.antt =====
-- The coroutines of libco/co.c: the pool of routines and who is current. The stacks and the saved
-- registers are left out: a `longjmp` to a routine makes it current, and one to `ret_buf` goes on in
-- the `co_wait` that set it last.
pub mod Inv
pub mod Pool
mod Tests
use os_workbench.Base.{
  ℕ, zero, suc, ◌+◌, ◌-◌, Bool, true, false, Option, none, some, List, [], ◌∷◌, ◌==◌, ltb,
  if◌then◌else◌, get_or, set, update,
}

abbrev pub max_routines : ℕ
max_routines = 100

-- `pool`, `pool_idx`, `CO_ALIVE` of each routine, and `current`, a routine being its index. `waiting`
-- is the `thd` of the `co_wait` that `ret_buf` leads back to, `none` if no such call is running.
pub record Co : Type 0 where
  pub pool : List ℕ
  pub pool_idx : ℕ
  pub alive : ℕ → Bool
  pub current : ℕ
  pub waiting : Option ℕ

-- The numbers from `i` on.
abbrev pub count_up : ℕ → ℕ → List ℕ
count_up i zero = []
count_up i (suc n) = i ∷ count_up (i + 1) n

unfoldable pub co_init : Co → Co
co_init c = record c { pool = count_up 0 max_routines; pool_idx = max_routines; alive = λ _. false }

-- `none` is the failed `Assert`.
unfoldable pub new_co : Co → Option (ℕ × Co)
new_co c =
    if c.pool_idx == 0
    then none
    else (let idx = c.pool_idx - 1 in
        let t = get_or c.pool idx 0 in
        some (t, record c { pool_idx = idx; alive = update c.alive t true }))

-- `co_start` as its caller sees it: the new routine is current, and returned.
unfoldable pub co_start : Co → Option (ℕ × Co)
unfolding new_co
co_start c = elim (new_co c) [ none ↦ none | some (t, c') ↦ some (t, record c' { current = t }) ]

-- The end of a routine; `none` is a write behind the array.
unfoldable pub co_return : Co → Option Co
co_return c =
    if ltb c.pool_idx max_routines
    then some (record c {
      alive = update c.alive c.current false;
      pool = set c.pool c.pool_idx c.current;
      pool_idx = c.pool_idx + 1;
    })
    else none

-- `co_jmp`, from `co_yield` to a routine that is alive or from `co_wait`.
unfoldable pub co_jmp : ℕ → Co → Co
co_jmp t c = record c { current = t }

-- `thd->stat=0`, the last line of `co_wait`, which then returns.
unfoldable pub co_waited : ℕ → Co → Co
co_waited t c = record c { alive = update c.alive t false; waiting = none }

-- `co_wait` up to where it runs a routine or returns.
unfoldable pub co_wait : ℕ → Co → Co
co_wait t c = if c.alive t then co_jmp t (record c { waiting = some t }) else co_waited t c

-- `longjmp(ret_buf,1)`; `none` is a jump into a call that has returned.
abbrev pub back_in : Option ℕ → Co → Option Co
back_in none c = none
back_in (some t) c = some (co_waited t c)

-- The end of a routine with the `co_wait` that its `longjmp` goes back to. It returns even if the
-- routine that it waits for is not the one that ended.
unfoldable pub co_end : Co → Option Co
co_end c = elim (co_return c) [ none ↦ none | some d ↦ back_in d.waiting d ]
