-- ===== src/Dir/Tests.antt =====
-- Paths that kernel/src/dir.c joins.
use os_workbench.Base.{ℕ, ◌≡◌, refl, some, List, [], ◌∷◌}
use os_workbench.Dir.{dot, slash, dir_cat}
use os_workbench.Dir.Split.{split}
use os_workbench.Dir.Walk.{Stack, go_into, walk, path, IsStack}
use os_workbench.Dir.Cat.{origin, dir_cat-walk}

-- "/a/bc", and "../d/./e/"
abbrev abc : Stack
abc = (b'b' ∷ b'c' ∷ []) ∷ (b'a' ∷ []) ∷ []

abc-IsStack : IsStack abc
abc-IsStack = (((λ e. cc e), (refl, (refl, tt))), (((λ e. cc e), (refl, tt)), tt))

abbrev up_and_down : List ℕ
up_and_down = dot ∷ dot ∷ slash ∷ b'd' ∷ slash ∷ dot ∷ slash ∷ b'e' ∷ slash ∷ []

abbrev ade : Stack
ade = (b'e' ∷ []) ∷ (b'd' ∷ []) ∷ (b'a' ∷ []) ∷ []

walked : walk (split up_and_down) abc ≡ ade
unfolding walk split go_into
walked = refl

dir_cat-walk_example :
    dir_cat (path abc) up_and_down ≡ some (path (walk (split up_and_down) (origin up_and_down abc)))
dir_cat-walk_example = dir_cat-walk abc up_and_down abc-IsStack
