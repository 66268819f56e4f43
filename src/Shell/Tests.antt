-- ===== src/Shell/Tests.antt =====
-- Lines that the shell parses.
use os_workbench.Base.{ℕ, List, [], ◌∷◌}
use os_workbench.Shell.Parse.{parsecmd}
use os_workbench.Shell.Scan.{Holds}
use os_workbench.Shell.Cut.{Complete, parsecmd-Complete}

-- "a>b&"
abbrev line : List ℕ
line = b'a' ∷ b'>' ∷ b'b' ∷ b'&' ∷ []

parsecmd-Complete_example : Holds (Complete line) (parsecmd line)
parsecmd-Complete_example = parsecmd-Complete line
