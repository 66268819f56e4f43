-- ===== src/Klib/Str.antt =====
-- abstract-machine/libs/klib/src/string.c over a memory of bytes. Each loop runs on fuel; the
-- functions give it a round more than the memory has bytes. The memory is below 2 ^ 31 bytes, so no size
-- or index wraps; a `char` is signed.
pub mod Len
pub mod Copy
pub mod Compare
pub mod Move
use os_workbench.Base.{
  ℕ, zero, suc, ◌+◌, ◌-◌, ◌%◌, Bool, true, false, ◌&&◌, ◌||◌, not, Option, none, some, ◌==◌, ltb,
  leb, if◌then◌else◌, length,
}
use os_workbench.Base.Int.{ℤ, pos, sub_ℕ, ◌-ℤ◌}
use os_workbench.Base.Run.{Run, ok, fault, out_of_fuel, ◌>>=◌}
use os_workbench.Klib.Mem.{Mem, load, store}

abbrev pub rounds : Mem → ℕ
rounds m = suc (length m)

-- A byte as a `char`.
abbrev pub char : ℕ → ℤ
char c = if ltb c 128 then pos c else sub_ℕ c 256

unfoldable pub strlen_loop : ℕ → Mem → ℕ → ℕ → Run ℕ
strlen_loop zero m s i = out_of_fuel
strlen_loop (suc fuel) m s i = do
  c ← load m (s + i)
  let rest = strlen_loop fuel m s (i + 1)
  if c == 0 then ok i else rest

unfoldable pub strlen : Mem → ℕ → Run ℕ
unfolding strlen_loop
strlen m s = strlen_loop (rounds m) m s 0

unfoldable pub strnlen_loop : ℕ → Mem → ℕ → ℕ → ℕ → Run ℕ
strnlen_loop zero m s n i = out_of_fuel
strnlen_loop (suc fuel) m s n i = do
  c ← load m (s + i)
  let rest = strnlen_loop fuel m s n (i + 1)
  if not (c == 0) && ltb i n then rest else ok i

unfoldable pub strnlen : Mem → ℕ → ℕ → Run ℕ
unfolding strnlen_loop
strnlen m s n = strnlen_loop (rounds m) m s n 0

-- The loop of `strcpy`, of `strcat` (with `dst` at the end of the first string).
unfoldable pub copy_loop : ℕ → Mem → ℕ → ℕ → ℕ → Run Mem
copy_loop zero m dst src i = out_of_fuel
copy_loop (suc fuel) m dst src i = do
  c ← load m (src + i)
  m' ← store m (dst + i) c
  let rest = copy_loop fuel m' dst src (i + 1)
  if c == 0 then ok m' else rest

unfoldable pub strcpy : Mem → ℕ → ℕ → Run Mem
unfolding copy_loop
strcpy m dst src = copy_loop (rounds m) m dst src 0

-- The loop of `strncpy` and `strncat`: at most `n` bytes, and then always a NUL.
unfoldable pub ncopy_loop : ℕ → Mem → ℕ → ℕ → ℕ → ℕ → Run Mem
ncopy_loop zero m dst src n i = out_of_fuel
ncopy_loop (suc fuel) m dst src n i =
    if ltb i n
    then (do
      c ← load m (src + i)
      let more = store m (dst + i) c >>= λ m'. ncopy_loop fuel m' dst src n (i + 1)
      if c == 0 then store m (dst + i) 0 else more)
    else store m (dst + i) 0

unfoldable pub strncpy : Mem → ℕ → ℕ → ℕ → Run Mem
unfolding ncopy_loop
strncpy m dst src n = ncopy_loop (rounds m) m dst src n 0

unfoldable pub strcat : Mem → ℕ → ℕ → Run Mem
unfolding strlen copy_loop
strcat m dst src = do len ← strlen m dst; copy_loop (rounds m) m (dst + len) src 0

unfoldable pub strncat : Mem → ℕ → ℕ → ℕ → Run Mem
unfolding strlen ncopy_loop
strncat m dst src n = do len ← strlen m dst; ncopy_loop (rounds m) m (dst + len) src n 0

unfoldable pub strcmp_loop : ℕ → Mem → ℕ → ℕ → Run ℤ
strcmp_loop zero m s1 s2 = out_of_fuel
strcmp_loop (suc fuel) m s1 s2 = do
  a ← load m s1
  b ← load m s2
  let rest = strcmp_loop fuel m (s1 + 1) (s2 + 1)
  if a == b && not (a == 0) then rest else ok (char a -ℤ char b)

unfoldable pub strcmp : Mem → ℕ → ℕ → Run ℤ
unfolding strcmp_loop
strcmp m s1 s2 = strcmp_loop (rounds m) m s1 s2

-- The loop of `strncmp` with `n` at least 1.
unfoldable pub strncmp_loop : ℕ → Mem → ℕ → ℕ → ℕ → Run ℤ
strncmp_loop zero m s1 s2 n = out_of_fuel
strncmp_loop (suc fuel) m s1 s2 n = do
  a ← load m s1
  b ← load m s2
  let rest = strncmp_loop fuel m (s1 + 1) (s2 + 1) (n - 1)
  if ltb 1 n && a == b && not (a == 0) then rest else ok (char a -ℤ char b)

unfoldable pub strncmp : Mem → ℕ → ℕ → ℕ → Run ℤ
unfolding strncmp_loop
strncmp m s1 s2 n = if n == 0 then ok (pos 0) else strncmp_loop (rounds m) m s1 s2 n

-- The remaining loops are counted, and recur on the rounds left.
unfoldable pub memset_loop : ℕ → Mem → ℕ → ℕ → Run Mem
memset_loop zero m v c = ok m
memset_loop (suc n) m v c = store m v c >>= λ m'. memset_loop n m' (v + 1) c

unfoldable pub memset : Mem → ℕ → ℕ → ℕ → Run Mem
unfolding memset_loop
memset m v c n = memset_loop n m v (c % 256)

unfoldable pub memcpy_loop : ℕ → Mem → ℕ → ℕ → Run Mem
memcpy_loop zero m out src = ok m
memcpy_loop (suc n) m out src = do
  c ← load m src
  m' ← store m out c
  memcpy_loop n m' (out + 1) (src + 1)

unfoldable pub memcpy : Mem → ℕ → ℕ → ℕ → Run Mem
unfolding memcpy_loop
memcpy m out src n = memcpy_loop n m out src

unfoldable pub memcmp_loop : ℕ → Mem → ℕ → ℕ → Run ℤ
memcmp_loop zero m s1 s2 = ok (pos 0)
memcmp_loop (suc n) m s1 s2 = do
  b ← load m s2
  a ← load m s1
  let rest = memcmp_loop n m (s1 + 1) (s2 + 1)
  if b == a then rest else ok (char b -ℤ char a)

unfoldable pub memcmp : Mem → ℕ → ℕ → ℕ → Run ℤ
unfolding memcmp_loop
memcmp m s1 s2 n = memcmp_loop n m s1 s2

-- The loop of `memmove` for a destination above the source, `for(int i=n-1;i>=0;++i)`: the test is
-- true of every `i` that an `int` can reach by counting up from `n - 1`.
unfoldable pub memmove_up : ℕ → Mem → ℕ → ℕ → ℕ → Run Mem
memmove_up zero m dest src i = out_of_fuel
memmove_up (suc fuel) m dest src i = do
  c ← load m (src + i)
  m' ← store m (dest + i) c
  memmove_up fuel m' dest src (i + 1)

unfoldable pub memmove : Mem → ℕ → ℕ → ℕ → Run Mem
unfolding memmove_up memcpy_loop
memmove m dest src n =
    if ltb src dest
    then (if n == 0 then ok m else memmove_up (rounds m) m dest src (n - 1))
    else memcpy_loop n m dest src

-- `none` is NULL.
unfoldable pub strchr_loop : ℕ → Mem → ℕ → ℕ → Run (Option ℕ)
strchr_loop zero m s c = out_of_fuel
strchr_loop (suc fuel) m s c = do
  a ← load m s
  let rest = strchr_loop fuel m (s + 1) c
  if a == 0 then ok none else if a == c then ok (some s) else rest

unfoldable pub strchr : Mem → ℕ → ℕ → Run (Option ℕ)
unfolding strchr_loop
strchr m s c = strchr_loop (rounds m) m s c
