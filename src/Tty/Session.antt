-- ===== src/Tty/Session.antt =====
-- A line typed at a terminal of tty.c, and read.
use os_workbench.Base.{
  ℕ, ◌+◌, ◌*◌, ◌≤◌, ◌<◌, ◌≡◌, refl, ◌≢◌, Bool, true, false, Option, none, some, List, [], ◌∷◌, ◌++◌,
  arith, ◌==◌, if◌then◌else◌, take, length, length-append, All, ap, ◌∙◌, Bool-cases, inl, inr,
}
use os_workbench.Tty.Screen.{Screen, tty_write}
use os_workbench.Tty.Cook.{Lines, tty_cook, tty_read, got}
use os_workbench.Tty.Line.{pending, rub}
use os_workbench.Tty.Typed.{edited, answer, ended, ended-append, Cooked, tty_cook-edited}
use os_workbench.Tty.Read.{line, later, tty_read-line}
use os_workbench.Tty.Task.{Terminal, task_byte}

unfoldable pub task_bytes : List ℕ → Terminal → Option Terminal
task_bytes [] t = some t
task_bytes (ch ∷ s) t = elim (task_byte ch t) [ none ↦ none | some t' ↦ task_bytes s t' ]

-- The bytes in the queue after more are typed, and those of them that are shown.
unfoldable pub line_of : List ℕ → List ℕ → List ℕ
line_of l [] = l
line_of l (ch ∷ s) = line_of (edited ch l) s

unfoldable pub echoed : List ℕ → List ℕ → List ℕ
echoed l [] = []
echoed l (ch ∷ s) = if answer ch l == 0 then ch ∷ echoed (edited ch l) s else echoed (edited ch l) s

length-rub : (l : List ℕ) → length (rub l) ≤ length l
length-rub [] = omega arith
length-rub (x ∷ []) = ground arith
length-rub (x ∷ y ∷ l) = omega (arith, length-rub (y ∷ l))

length-edited : (ch : ℕ) (l : List ℕ) → length (edited ch l) ≤ length l + 2
length-edited ch l = ground (
  arith,
  length-append l (10 ∷ 0 ∷ []),
  length-append l (0 ∷ []),
  length-append l (ch ∷ []),
  length-rub l,
)

write_if :
    (ch : ℕ) (b : Bool) (e : List ℕ) (screen : Screen)
    → tty_write e (if b then tty_write (ch ∷ []) screen else screen)
      ≡ tty_write (if b then ch ∷ e else e) screen
unfolding tty_write
write_if ch true e screen = refl
write_if ch false e screen = refl

task_byte-cook :
    (ch : ℕ) (t : Terminal) (ret : ℕ) (u : Lines)
    → tty_cook ch t.lines ≡ some (ret, u)
    → task_byte ch t
      ≡ some (record {
        lines = u;
        screen = if ret == 0 then tty_write (ch ∷ []) t.screen else t.screen;
      })
unfolding task_byte
task_byte-cook ch t ret u e = rw (e, task_byte) refl

-- Bytes typed at a terminal with room for two of each edit its line as they should, and what is shown
-- is what is not a backspace that takes back nothing.
pub task_bytes-line_of :
    (s : List ℕ) (t : Terminal)
    → Cooked t.lines
    → length (pending t.lines.queue) + 2 * length s < 1024
    → (u : Terminal) × (task_bytes s t ≡ some u)
      × Cooked u.lines
      × (pending u.lines.queue ≡ line_of (pending t.lines.queue) s)
      × (u.screen ≡ tty_write (echoed (pending t.lines.queue) s) t.screen)
unfolding task_bytes line_of echoed tty_write
task_bytes-line_of [] t v h = (t, refl, v, refl, refl)
task_bytes-line_of (ch ∷ s) t v h =
    let l = pending t.lines.queue in
    let c = tty_cook-edited ch t.lines v (omega (arith, h)) in
    let shown = if answer ch l == 0 then tty_write (ch ∷ []) t.screen else t.screen in
    let t' : Terminal = record { lines = c.0; screen = shown } in
    let one = task_byte-cook ch t (answer ch l) c.0 c.1 in
    let r =
      task_bytes-line_of s t' c.2 (omega (arith, h, ap (length {A = ℕ}) c.3, length-edited ch l)) in
    (
      r.0,
      rw (one, task_bytes) (r.1),
      r.2,
      r.3 ∙ ap (λ k. line_of k s) c.3,
      r.4
          ∙ ap (λ k. tty_write (echoed k s) shown) c.3
          ∙ write_if ch (answer ch l == 0) (echoed (edited ch l) s) t.screen,
    )

-- No line ends in these bytes.
abbrev pub Open : List ℕ → Type 0
Open l = All (λ ch. (ch ≢ 0) × (ch ≢ 10)) l

line-newline : (l : List ℕ) → Open l → line (l ++ (10 ∷ 0 ∷ [])) ≡ l ++ (10 ∷ [])
line-newline [] o = refl
line-newline (x ∷ l) o =
    let e : (x == 0) ≡ false = ground (arith, o.0.0) in rw e (ap (λ t. x ∷ t) (line-newline l o.1))

later-newline : (l : List ℕ) → Open l → later (l ++ (10 ∷ 0 ∷ [])) ≡ []
later-newline [] o = refl
later-newline (x ∷ l) o =
    let e : (x == 0) ≡ false = ground (arith, o.0.0) in rw e (later-newline l o.1)

rub-Open : (l : List ℕ) → Open l → Open (rub l)
rub-Open [] o = tt
rub-Open (x ∷ []) o = let e : (x == 0) ≡ false = ground (arith, o.0.0) in rw e tt
rub-Open (x ∷ y ∷ l) o = (o.0, rub-Open (y ∷ l) o.1)

snoc-Open : (l : List ℕ) (x : ℕ) → Open l → x ≢ 0 → x ≢ 10 → Open (l ++ (x ∷ []))
snoc-Open [] x o a b = ((a, b), tt)
snoc-Open (y ∷ l) x o a b = (o.0, snoc-Open l x o.1 a b)

line_of-Open : (s l : List ℕ) → Open s → Open l → Open (line_of l s)
unfolding line_of
line_of-Open [] l o p = p
line_of-Open (ch ∷ s) l o p = line_of-Open s (edited ch l) o.1 next
  where
    next : Open (edited ch l)
    next =
        let a : (ch == 10) ≡ false = ground (arith, o.0.1) in
        let b : (ch == 0) ≡ false = ground (arith, o.0.0) in
        elim (Bool-cases (ch == 8)) [
          | inl c ↦ rw (a, b, c) (rub-Open l p)
          | inr c ↦ rw (a, b, c) (snoc-Open l ch p o.0.0 o.0.1)
        ]

line_of-append : (s r l : List ℕ) → line_of l (s ++ r) ≡ line_of (line_of l s) r
unfolding line_of
line_of-append [] r l = refl
line_of-append (ch ∷ s) r l = line_of-append s r (edited ch l)

-- Bytes other than a newline and 0 are typed at a terminal with nothing in its queue, backspaces among
-- them, no more than 510, and then a newline. A read that follows returns the line as it was edited, with
-- the newline, cut to the room of the buffer, and leaves the queue empty; and the screen has been
-- written what is to be shown.
pub task_bytes-read :
    (s : List ℕ) (count : ℕ) (t : Terminal)
    → Cooked t.lines
    → pending t.lines.queue ≡ []
    → Open s
    → length s ≤ 510
    → (u : Terminal) × (left : Lines) × (task_bytes (s ++ (10 ∷ [])) t ≡ some u)
      × (tty_read 1024 count u.lines
          ≡ got (length (line_of [] s ++ (10 ∷ []))) (take count (line_of [] s ++ (10 ∷ []))) left)
      × Cooked left
      × (pending left.queue ≡ [])
      × (u.screen ≡ tty_write (echoed [] (s ++ (10 ∷ []))) t.screen)
unfolding line_of
task_bytes-read s count t v e o h =
    let w = s ++ (10 ∷ []) in
    let l = line_of [] s in
    let r =
      task_bytes-line_of w t v
        (omega (arith, ap (length {A = ℕ}) e, length-append s (10 ∷ []), h)) in
    let full : pending r.0.lines.queue ≡ l ++ (10 ∷ 0 ∷ []) =
      r.3 ∙ ap (λ k. line_of k w) e ∙ line_of-append s (10 ∷ []) [] in
    let there : r.0.lines.cooked ≢ 0 =
      λ z. omega (arith, z, r.2.counted, ap ended full, ended-append l (10 ∷ 0 ∷ [])) in
    let d = tty_read-line 1024 count r.0.lines (omega arith) r.2 there in
    let p = line_of-Open s [] o tt in
    let first : line (pending r.0.lines.queue) ≡ l ++ (10 ∷ []) = ap line full ∙ line-newline l p in
    (
      r.0,
      d.0,
      r.1,
      d.1 ∙ ap (λ k. got (length k) (take count k) d.0) first,
      d.2,
      d.3 ∙ ap later full ∙ later-newline l p,
      r.4 ∙ ap (λ k. tty_write (echoed k w) t.screen) e,
    )
