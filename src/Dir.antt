-- ===== src/Dir.antt =====
-- The paths of kernel/src/dir.c. A string is the list of its bytes up to the NUL; the buffers are large
-- enough (the code uses 0x100 bytes and does not look). `strcmp`, `strncmp` and `strncat` are read as
-- equality, equality of the first bytes, and appending.
pub mod Split
pub mod Walk
pub mod Cat
mod Tests
use os_workbench.Base.{
  ℕ, zero, suc, ◌+◌, ◌-◌, Bool, true, false, ◌&&◌, not, Option, none, some, List, [], ◌∷◌, ◌++◌,
  ◌==◌, ltb, if◌then◌else◌, length, take, drop,
}
use mathlib.Core.Option

abbrev pub slash : ℕ
slash = b'/'

abbrev pub dot : ℕ
dot = b'.'

-- The test that `strcmp` and `strncmp` make, for equality.
abbrev pub same : List ℕ → List ℕ → Bool
same [] [] = true
same [] (b ∷ t) = false
same (a ∷ s) [] = false
same (a ∷ s) (b ∷ t) = a == b && same s t

-- `get_first_slash`, with `none` for -1.
unfoldable pub get_first_slash : List ℕ → Option ℕ
get_first_slash [] = none
get_first_slash (c ∷ s) = if c == slash then some 0 else Option.map suc (get_first_slash s)

unfoldable pub get_first_layer : List ℕ → ℕ
get_first_layer path = elim (get_first_slash path) [ none ↦ length path | some i ↦ i ]

-- `get_last_slash`: the loop from the end down finds the last slash.
unfoldable pub get_last_slash : List ℕ → Option ℕ
get_last_slash [] = none
get_last_slash (c ∷ s) = elim (get_last_slash s) [
  | some i ↦ some (suc i)
  | none ↦ if c == slash then some 0 else none
]

-- `dest[get_last_slash(dest)+k]='\0'`; with no slash it would write outside, and `dest` is kept.
unfoldable pub cut_at : ℕ → List ℕ → List ℕ
cut_at k dest = elim (get_last_slash dest) [ none ↦ dest | some i ↦ take (i + k) dest ]

-- One round of the loop of `dir_cat_real`: the layer of `next` bytes in front of `src`.
unfoldable pub layer : ℕ → List ℕ → List ℕ → List ℕ
layer next dest src =
    if next == 0
    then dest
    else if next == 1
    then (if same (take 1 src) (dot ∷ []) then dest else dest ++ take (next + 1) src)
    else if next == 2
    then (if same (take 2 src) (dot ∷ dot ∷ [])
        then (if same dest (slash ∷ []) then dest else cut_at 1 (cut_at 0 dest))
        else dest ++ take (next + 1) src)
    else dest ++ take (next + 1) src

-- The loop, on fuel; `none` is out of fuel.
unfoldable pub dir_cat_loop : ℕ → List ℕ → List ℕ → Option (List ℕ)
dir_cat_loop zero dest src = none
dir_cat_loop (suc fuel) dest src = elim (get_first_slash src) [
  | none ↦ some (layer (length src) dest src)
  | some next ↦ dir_cat_loop fuel (layer next dest src) (drop (next + 1) src)
]

abbrev pub last : List ℕ → Option ℕ
last [] = none
last (c ∷ []) = some c
last (c ∷ d ∷ s) = last (d ∷ s)

abbrev pub is_slash : Option ℕ → Bool
is_slash none = false
is_slash (some c) = c == slash

abbrev pub ends_in_slash : List ℕ → Bool
ends_in_slash s = is_slash (last s)

-- The end of `dir_cat`: a slash at the end goes, unless it is all.
unfoldable pub strip : List ℕ → List ℕ
strip dest = if ends_in_slash dest && ltb 1 (length dest) then take (length dest - 1) dest else dest

abbrev pub starts_with_slash : List ℕ → Bool
starts_with_slash [] = false
starts_with_slash (c ∷ s) = c == slash

-- `dir_cat`; `none` is the failed `Assert` (and no fuel, which `Walk` excludes).
unfoldable pub dir_cat : List ℕ → List ℕ → Option (List ℕ)
unfolding dir_cat_loop
dir_cat dest src =
    if starts_with_slash dest
    then (let base =
          if starts_with_slash src
          then take 1 dest
          else if ends_in_slash dest
          then dest
          else dest ++ (slash ∷ []) in
        Option.map strip (dir_cat_loop (suc (length src)) base src))
    else none

unfoldable pub to_absolute : List ℕ → List ℕ → Option (List ℕ)
to_absolute pwd rela = if starts_with_slash rela then some rela else dir_cat pwd rela
