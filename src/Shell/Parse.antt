-- ===== src/Shell/Parse.antt =====
-- The recursive descent of kernel/src/shell/parse.c. `line` is the parser of what stands in
-- parentheses: `parseline` passes itself, with a round less. The loops of one line get a round more
-- than the line has bytes.
use os_workbench.Base.{
  ℕ, zero, suc, ◌+◌, true, false, List, [], ◌∷◌, ◌++◌, ◌==◌, leb, if◌then◌else◌, set, length,
}
use os_workbench.Base.Run.{Run, ok, fault, out_of_fuel, ◌>>=◌}
use os_workbench.Shell.{
  Span, Redir, Cmd, exec, redir, pipe, seq, back, max_args, skip, gettoken, peek, parseredirs, wrap,
  argument,
}

abbrev pub rounds : List ℕ → ℕ
rounds s = suc (length s)

-- Where a parser stands after a command.
abbrev pub Parsed : Type 0
Parsed = Run (Cmd × ℕ)

-- The loop of `parseexec`, with the words and redirections so far: the code adds the words to the
-- command that the redirections are already wrapped around, so they meet at the end.
unfoldable pub parseargs : ℕ → List ℕ → List Span → List Redir → ℕ → Parsed
parseargs zero s args rs p = out_of_fuel
parseargs (suc fuel) s args rs p = elim (peek s p (b'|' ∷ b')' ∷ b'&' ∷ b';' ∷ [])) [
  | true ↦ ok (wrap (exec args) rs, skip s p)
  | false ↦ do
    t ← gettoken s (skip s p)
    elim (t.kind == 0) [
      | true ↦ ok (wrap (exec args) rs, t.rest)
      | false ↦ do
        a ← argument t
        elim (leb max_args (length args + 1)) [
          | true ↦ fault
          | false ↦ do
            more ← parseredirs (rounds s) s rs t.rest
            parseargs fuel s (args ++ (a ∷ [])) more.0 more.1
        ]
    ]
]

unfoldable pub parseblock : (line : ℕ → Parsed) → List ℕ → ℕ → Parsed
parseblock line s p = elim (peek s p (b'(' ∷ [])) [
  | false ↦ fault
  | true ↦ do
    t ← gettoken s (skip s p)
    c ← line t.rest
    elim (peek s c.1 (b')' ∷ [])) [
      | false ↦ fault
      | true ↦ do
        u ← gettoken s (skip s c.1)
        r ← parseredirs (rounds s) s [] u.rest
        ok (wrap c.0 r.0, r.1)
    ]
]

unfoldable pub parseexec : (line : ℕ → Parsed) → List ℕ → ℕ → Parsed
parseexec line s p = elim (peek s p (b'(' ∷ [])) [
  | true ↦ parseblock line s (skip s p)
  | false ↦ do r ← parseredirs (rounds s) s [] (skip s p); parseargs (rounds s) s [] r.0 r.1
]

unfoldable pub parsepipe : ℕ → (line : ℕ → Parsed) → List ℕ → ℕ → Parsed
parsepipe zero line s p = out_of_fuel
parsepipe (suc fuel) line s p = do
  c ← parseexec line s p
  elim (peek s c.1 (b'|' ∷ [])) [
    | false ↦ ok (c.0, skip s c.1)
    | true ↦ do
      t ← gettoken s (skip s c.1)
      d ← parsepipe fuel line s t.rest
      ok (pipe c.0 d.0, d.1)
  ]

-- The loop over "&" in `parseline`.
unfoldable pub parseback : ℕ → List ℕ → Cmd → ℕ → Parsed
parseback zero s c p = out_of_fuel
parseback (suc fuel) s c p = elim (peek s p (b'&' ∷ [])) [
  | false ↦ ok (c, skip s p)
  | true ↦ do t ← gettoken s (skip s p); parseback fuel s (back c) t.rest
]

unfoldable pub parseline : ℕ → List ℕ → ℕ → Parsed
parseline zero s p = out_of_fuel
parseline (suc fuel) s p = do
  c ← parsepipe (rounds s) (parseline fuel s) s p
  d ← parseback (rounds s) s c.0 c.1
  elim (peek s d.1 (b';' ∷ [])) [
    | false ↦ ok (d.0, skip s d.1)
    | true ↦ do t ← gettoken s (skip s d.1); e ← parseline fuel s t.rest; ok (seq d.0 e.0, e.1)
  ]

-- `nulterminate` on the buffer: a NUL at the end of every word.
abbrev pub cut_words : List Span → List ℕ → List ℕ
cut_words [] m = m
cut_words (w ∷ ws) m = cut_words ws (set m w.1 0)

unfoldable pub nulterminate : Cmd → List ℕ → List ℕ
nulterminate (exec args) m = cut_words args m
nulterminate (redir c r) m = set (nulterminate c m) r.file.1 0
nulterminate (pipe c d) m = nulterminate d (nulterminate c m)
nulterminate (seq c d) m = nulterminate d (nulterminate c m)
nulterminate (back c) m = nulterminate c m

-- `parsecmd`: the command, and the buffer with its words cut.
unfoldable pub parsecmd : List ℕ → Run (Cmd × List ℕ)
parsecmd s = do
  c ← parseline (rounds s) s 0
  if skip s c.1 == length s then ok (c.0, nulterminate c.0 (s ++ (0 ∷ []))) else fault
