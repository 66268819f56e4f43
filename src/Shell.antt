-- ===== src/Shell.antt =====
-- The command parser of the shell, kernel/src/shell/parse.c, with kernel/include/parse.h. A line is
-- the list of its bytes, none of them NUL, and a pointer into it is an index; `*es` is the NUL behind
-- it. `fault` is a `panic`. The scans of one token get as many rounds as the line has bytes, and stop
-- at its end at the latest.
pub mod Parse
pub mod Scan
pub mod Ends
pub mod Total
pub mod Cut
mod Tests
use os_workbench.Base.{
  ℕ, zero, suc, ◌+◌, ◌-◌, Bool, true, false, ◌&&◌, ◌||◌, not, List, [], ◌∷◌, ◌++◌, ◌==◌, ltb, leb,
  if◌then◌else◌, get_or, set, length,
}
use os_workbench.Base.Run.{Run, ok, fault, out_of_fuel, ◌>>=◌}

-- A word of the line, from its first byte to the one behind it: an entry of `argv` and of `eargv`.
abbrev pub Span : Type 0
Span = ℕ × ℕ

pub record Redir : Type 0 where
  pub file : Span
  pub mode : ℕ
  pub fd : ℕ

pub data Cmd : Type 0 where
  exec : List Span → Cmd
  redir : Cmd → Redir → Cmd
  pipe : Cmd → Cmd → Cmd
  seq : Cmd → Cmd → Cmd
  back : Cmd → Cmd

abbrev pub max_args : ℕ
max_args = 10

-- `strchr` in a set of bytes.
abbrev pub has : ℕ → List ℕ → Bool
has c [] = false
has c (x ∷ xs) = c == x || has c xs

abbrev pub whitespace : List ℕ
whitespace = b' ' ∷ 9 ∷ 13 ∷ 10 ∷ 11 ∷ []

abbrev pub symbols : List ℕ
symbols = b'<' ∷ b'|' ∷ b'>' ∷ b'&' ∷ b';' ∷ b'(' ∷ b')' ∷ []

-- The one-byte symbols but `>`, as `gettoken` has them.
abbrev pub singles : List ℕ
singles = b'|' ∷ b'(' ∷ b')' ∷ b';' ∷ b'&' ∷ b'<' ∷ []

abbrev pub at : List ℕ → ℕ → ℕ
at s p = get_or s p 0

unfoldable pub skip_loop : ℕ → List ℕ → ℕ → ℕ
skip_loop zero s p = p
skip_loop (suc fuel) s p =
    let rest = skip_loop fuel s (p + 1) in
    if ltb p (length s) && has (at s p) whitespace then rest else p

unfoldable pub skip : List ℕ → ℕ → ℕ
skip s p = skip_loop (length s) s p

-- The end of a word.
unfoldable pub word_loop : ℕ → List ℕ → ℕ → ℕ
word_loop zero s p = p
word_loop (suc fuel) s p =
    let rest = word_loop fuel s (p + 1) in
    if ltb p (length s) && (not (has (at s p) whitespace) && not (has (at s p) symbols))
    then rest
    else p

-- The quote that matches the one at `p`, or the end of the line.
unfoldable pub quote_loop : ℕ → List ℕ → ℕ → ℕ → ℕ
quote_loop zero s match p = p
quote_loop (suc fuel) s match p =
    let rest = quote_loop fuel s match (p + 1) in
    if at s (p + 1) == match || at s (p + 1) == 0 then p + 1 else rest

-- What `gettoken` returns, and leaves in `q`, `eq` and `ps`.
pub record Token : Type 0 where
  pub kind : ℕ
  pub start : ℕ
  pub stop : ℕ
  pub rest : ℕ

unfoldable pub token : List ℕ → ℕ → ℕ → ℕ → Token
token s kind start stop = record { kind = kind; start = start; stop = stop; rest = skip s stop }

unfoldable pub gettoken : List ℕ → ℕ → Run Token
gettoken s p =
    let q = skip s p in
    let c = at s q in
    if c == b'"' || c == 39
    then (let e = quote_loop (length s) s c q in
        if at s e == 0 then fault else ok (token s b'"' q (e + 1)))
    else if c == 0
    then ok (token s 0 q q)
    else if has c singles
    then ok (token s c q (q + 1))
    else if c == b'>'
    then (if at s (q + 1) == b'>' then ok (token s b'+' q (q + 2)) else ok (token s b'>' q (q + 1)))
    else ok (token s b'a' q (word_loop (length s) s q))

-- `peek`; the pointer that it leaves is `skip s p`.
unfoldable pub peek : List ℕ → ℕ → List ℕ → Bool
peek s p toks = not (at s (skip s p) == 0) && has (at s (skip s p)) toks

-- `O_RDONLY`, and `O_WRONLY|O_CREATE` without and with `O_APPEND`, on the descriptor.
unfoldable pub redirection : ℕ → Span → Redir
redirection kind file =
    if kind == b'<'
    then record { file = file; mode = 1; fd = 0 }
    else if kind == b'>'
    then record { file = file; mode = 6; fd = 1 }
    else record { file = file; mode = 22; fd = 1 }

unfoldable pub parseredirs : ℕ → List ℕ → List Redir → ℕ → Run (List Redir × ℕ)
parseredirs zero s rs p = out_of_fuel
parseredirs (suc fuel) s rs p = elim (peek s p (b'<' ∷ b'>' ∷ [])) [
  | false ↦ ok (rs, skip s p)
  | true ↦ do
    t ← gettoken s (skip s p)
    f ← gettoken s t.rest
    elim (f.kind == b'a') [
      | false ↦ fault
      | true ↦ parseredirs fuel s (rs ++ (redirection t.kind (f.start, f.stop) ∷ [])) f.rest
    ]
]

-- The commands of `redircmd` around one, the last outermost.
abbrev pub wrap : Cmd → List Redir → Cmd
wrap c [] = c
wrap c (r ∷ rs) = wrap (redir c r) rs

-- The word that a token adds to `argv` and `eargv`.
unfoldable pub argument : Token → Run Span
argument t =
    if t.kind == b'"'
    then ok (t.start + 1, t.stop - 1)
    else if t.kind == b'a'
    then ok (t.start, t.stop)
    else fault
