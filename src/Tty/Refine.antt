-- ===== src/Tty/Refine.antt =====
-- The changes to the screen of tty.c follow those to an endless page.
use os_workbench.Base.{
  ℕ, suc, ◌+◌, ◌-◌, ◌*◌, ◌/◌, ◌%◌, ◌≤◌, ◌<◌, ◌≡◌, refl, true, false, List, [], ◌∷◌, arith, ◌==◌,
  ltb, update, ap, Bool-cases, inl, inr, ==→eq, ==→ne,
}
use mathlib.Core.Path.{subst}
use native.Mathlib.Nat.{suc-mul}
use os_workbench.Tty.Screen.{
  Cell, Screen, tty_upd_cr, tty_upd_lf, tty_upd_backsp, tty_upd_putc, tty_mark, tty_mark_line, cr,
  backsp, lf, settle, tty_putc, tty_write, tty_init,
}
use os_workbench.Tty.Page.{
  Page, blank, set_at, new_line, step_back, rub_out, put, type_byte, type_bytes,
}
use os_workbench.Tty.Shows.{Looks, Shows, redirtied}
use os_workbench.Tty.Steps.{moved, written}
use os_workbench.Tty.Settle.{settled_in, rubbed, line_start, at_newline}

module _ (t : Screen) (p : Page) (h : Looks t.lines t.columns t.fg t.bg t p) where
  at_cr :
      p.row < p.top + t.lines
      → Shows t.lines t.columns t.fg t.bg
          (tty_mark_line (tty_upd_cr t).cursor (tty_upd_cr t))
          (record p { col = 0 })
  unfolding tty_upd_cr tty_mark_line
  at_cr k = (
    redirtied (tty_mark_line (tty_upd_cr t).cursor (tty_upd_cr t)).dirty (
        moved t p h p.row 0 (t.cursor - t.cursor % t.columns) h.some_columns h.from_top
          (line_start t p h)),
    k,
  )

  at_lf :
      p.row < p.top + t.lines
      → Shows t.lines t.columns t.fg t.bg
          (settle
            (λ u. tty_mark_line u.cursor (tty_mark_line (u.cursor - u.columns) u))
            (tty_upd_lf (tty_upd_cr t)))
          (new_line t.lines t.columns p)
  unfolding tty_upd_cr tty_upd_lf tty_mark_line
  at_lf k = at_newline u p mark looks (redirtied (mark u).dirty looks) k
    where
      u : Screen
      u = tty_upd_lf (tty_upd_cr t)

      mark : Screen → Screen
      mark v = tty_mark_line v.cursor (tty_mark_line (v.cursor - v.columns) v)

      looks : Looks t.lines t.columns t.fg t.bg u (record p { row = p.row + 1; col = 0 })
      looks = moved t p h (p.row + 1) 0 u.cursor h.some_columns (omega (arith, h.from_top)) (
          omega (
            arith,
            line_start t p h,
            suc-mul (p.row - p.top) t.columns,
            ap (λ n. n * t.columns) next,
          ))
        where
          next : p.row + 1 - p.top ≡ suc (p.row - p.top)
          next = omega (arith, h.from_top)

  backed :
      p.row < p.top + t.lines
      → Shows t.lines t.columns t.fg t.bg (tty_upd_backsp t) (rub_out t.lines t.columns p)
  unfolding tty_upd_backsp rub_out step_back
  backed k = elim (Bool-cases (p.col == 0)) [
    | inl b ↦ elim (Bool-cases (p.row == p.top)) [
      | inl d ↦
          let rows : p.row - p.top ≡ 0 = omega (arith, ==→eq p.row p.top d) in
          let start : ltb 0 t.cursor ≡ false =
            ground (arith, h.at, ap (λ n. n * t.columns) rows, ==→eq p.col 0 b) in
          rw b (rw d (rw start (h, k)))
      | inr d ↦
          let above : p.row - p.top ≡ suc (p.row - 1 - p.top) =
            omega (arith, ==→ne p.row p.top d, h.from_top) in
          let at : t.cursor ≡ (p.row - 1 - p.top) * t.columns + t.columns = omega (
            arith,
            h.at,
            ap (λ n. n * t.columns) above,
            suc-mul (p.row - 1 - p.top) t.columns,
            ==→eq p.col 0 b,
          ) in
          let start : ltb 0 t.cursor ≡ true = ground (arith, at, h.some_columns) in
          let m =
            moved t p h (p.row - 1) (t.columns - 1) (t.cursor - 1) (omega (arith, h.some_columns))
              (omega (arith, above)) (omega (arith, at, h.some_columns)) in
          rw b (
            rw d (
              rw start (
                rubbed (record t { cursor = t.cursor - 1 })
                    (record p { row = p.row - 1; col = t.columns - 1 }) m (omega (arith, k, above)),
                omega (arith, k, above),
              )))
    ]
    | inr b ↦
        let col : 0 < p.col = omega (arith, ==→ne p.col 0 b) in
        let start : ltb 0 t.cursor ≡ true = ground (arith, h.at, col) in
        let m =
          moved t p h p.row (p.col - 1) (t.cursor - 1) (omega (arith, h.in_row)) h.from_top
            (omega (arith, h.at, col)) in
        rw b (
          rw start
            (rubbed (record t { cursor = t.cursor - 1 }) (record p { col = p.col - 1 }) m k, k))
  ]

  at_back :
      p.row < p.top + t.lines
      → Shows t.lines t.columns t.fg t.bg
          (tty_mark
            ((tty_upd_backsp t).cursor + 1)
            (tty_mark (tty_upd_backsp t).cursor (tty_upd_backsp t)))
          (rub_out t.lines t.columns p)
  unfolding tty_mark
  at_back k =
      let u = tty_upd_backsp t in
      let s = backed k in (redirtied (tty_mark (u.cursor + 1) (tty_mark u.cursor u)).dirty s.0, s.1)

  at_put :
      (ch : ℕ)
      → p.row < p.top + t.lines
      → Shows t.lines t.columns t.fg t.bg
          (settle (λ u. tty_mark u.cursor (tty_mark (u.cursor - 1) u)) (tty_upd_putc ch t))
          (put t.lines t.columns t.fg t.bg ch p)
  unfolding tty_upd_putc tty_mark put
  at_put ch k = elim (Bool-cases (p.col + 1 == t.columns)) [
    | inl b ↦
        let m =
          moved v q w (p.row + 1) 0 (t.cursor + 1) h.some_columns (omega (arith, h.from_top)) (
            omega (
              arith,
              h.at,
              ==→eq (p.col + 1) t.columns b,
              suc-mul (p.row - p.top) t.columns,
              ap (λ n. n * t.columns) next,
            )) in
        rw b (at_newline u q mark m (redirtied (mark u).dirty m) k)
    | inr b ↦
        let m =
          moved v q w p.row (p.col + 1) (t.cursor + 1)
            (omega (arith, h.in_row, ==→ne (p.col + 1) t.columns b)) h.from_top
            (omega (arith, h.at)) in
        rw b (settled_in u (record q { col = p.col + 1 }) m mark (redirtied (mark u).dirty m) k)
  ]
    where
      x : Cell
      x = record { ch = ch; fg = t.fg; bg = t.bg }

      q : Page
      q = record p { text = set_at p.row p.col x p.text }

      v : Screen
      v = record t { buf = update t.buf t.cursor x }

      u : Screen
      u = tty_upd_putc ch t

      mark : Screen → Screen
      mark s = tty_mark s.cursor (tty_mark (s.cursor - 1) s)

      w : Looks t.lines t.columns t.fg t.bg v q
      w = written t p h x k

      next : p.row + 1 - p.top ≡ suc (p.row - p.top)
      next = omega (arith, h.from_top)

  putc-Shows :
      (ch : ℕ)
      → p.row < p.top + t.lines
      → Shows t.lines t.columns t.fg t.bg
          (tty_putc ch t)
          (type_byte t.lines t.columns t.fg t.bg ch p)
  unfolding tty_putc type_byte
  putc-Shows ch k = elim (Bool-cases (ch == cr)) [
    | inl a ↦ rw a (at_cr k)
    | inr a ↦ elim (Bool-cases (ch == backsp)) [
      | inl b ↦ rw a (rw b (at_back k))
      | inr b ↦ elim (Bool-cases (ch == lf)) [
        | inl c ↦ rw a (rw b (rw c (at_lf k)))
        | inr c ↦ rw a (rw b (rw c (at_put ch k)))
      ]
    ]
  ]

tty_putc-Shows :
    (lines columns fg bg ch : ℕ) (t : Screen) (p : Page)
    → Shows lines columns fg bg t p
    → Shows lines columns fg bg (tty_putc ch t) (type_byte lines columns fg bg ch p)
tty_putc-Shows lines columns fg bg ch t p s =
    subst
      (λ l.
        Shows l columns fg bg t p
        → Shows l columns fg bg (tty_putc ch t) (type_byte l columns fg bg ch p))
      s.0.has_lines
      (subst
        (λ c.
          Shows t.lines c fg bg t p
          → Shows t.lines c fg bg (tty_putc ch t) (type_byte t.lines c fg bg ch p))
        s.0.has_columns
        (subst
          (λ f.
            Shows t.lines t.columns f bg t p
            → Shows t.lines t.columns f bg (tty_putc ch t) (type_byte t.lines t.columns f bg ch p))
          s.0.has_fg
          (subst
            (λ g.
              Shows t.lines t.columns t.fg g t p
              → Shows t.lines t.columns t.fg g (tty_putc ch t)
                  (type_byte t.lines t.columns t.fg g ch p))
            s.0.has_bg (λ r. putc-Shows t p r.0 ch r.1))))
      s

-- A screen that shows the rows of a page from its top on, with the cursor at the page's place, shows
-- after a write of any bytes what the page then is with those bytes typed, the cursor at its place,
-- which is on the screen again.
pub tty_write-Shows :
    (s : List ℕ) (lines columns fg bg : ℕ) (t : Screen) (p : Page)
    → Shows lines columns fg bg t p
    → Shows lines columns fg bg (tty_write s t) (type_bytes lines columns fg bg s p)
unfolding tty_write type_bytes
tty_write-Shows [] lines columns fg bg t p h = h
tty_write-Shows (ch ∷ s) lines columns fg bg t p h =
    tty_write-Shows s lines columns fg bg (tty_putc ch t) (type_byte lines columns fg bg ch p)
      (tty_putc-Shows lines columns fg bg ch t p h)

-- `tty_init` of a frame buffer that has room for a line and a column shows the blank page.
pub tty_init-Shows :
    (width height : ℕ)
    → 8 ≤ width
    → 16 ≤ height
    → Shows (height / 16) (width / 8) 0x00ff_ffff 0x0030_0a24 (tty_init width height) blank
unfolding tty_init
tty_init-Shows width height a b = (
  record {
    has_lines = refl;
    has_columns = refl;
    has_fg = refl;
    has_bg = refl;
    some_lines = omega arith;
    some_columns = omega arith;
    in_row = omega arith;
    from_top = omega arith;
    at = omega arith;
    same = λ r c k l. refl;
    below = λ r c k. refl;
  },
  omega arith,
)
