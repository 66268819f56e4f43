-- ===== src/Tty/Settle.antt =====
-- Where the screen of tty.c goes up a line when the cursor leaves it, and rubbing out.
use os_workbench.Base.{
  ◌+◌, ◌-◌, ◌*◌, ◌%◌, ◌<◌, ◌≡◌, refl, true, false, arith, ◌==◌, update, ap, ◌∙◌, Bool-cases, inl,
  inr, ==→eq, ==→ne,
}
use mathlib.Core.Path.{subst}
use native.Mathlib.Nat.{mul-add-mod_self_right, mod-eq_of_lt, mul_comm}
use os_workbench.Tty.Screen.{Screen, size, fill, tty_upd_scrollup, tty_mark_all, settle}
use os_workbench.Tty.Page.{Page, set_at, new_line}
use os_workbench.Tty.Shows.{Looks, Shows, index-lt, redirtied, scrolled}
use os_workbench.Tty.Steps.{under, written}

module _ (t : Screen) (p : Page) (h : Looks t.lines t.columns t.fg t.bg t p) where
  pub settled_in :
      (mark : Screen → Screen)
      → Looks t.lines t.columns t.fg t.bg (mark t) p
      → p.row < p.top + t.lines
      → Shows t.lines t.columns t.fg t.bg (settle mark t) p
  unfolding settle
  settled_in mark hm k =
      let lt =
        index-lt t.columns t.lines (p.row - p.top) p.col h.in_row (omega (arith, h.from_top)) in
      let e : (t.cursor == t.columns * t.lines) ≡ false = ground (arith, lt, h.at) in rw e (hm, k)

  settled_over :
      (mark : Screen → Screen)
      → p.row ≡ p.top + t.lines
      → p.col ≡ 0
      → Shows t.lines t.columns t.fg t.bg (settle mark t) (record p { top = p.top + 1 })
  unfolding settle tty_mark_all tty_upd_scrollup
  settled_over mark k z =
      let rows : p.row - p.top ≡ t.lines = omega arith in
      let end : t.cursor ≡ t.columns * t.lines =
        omega (arith, h.at, ap (λ n. n * t.columns) rows, mul_comm t.columns t.lines) in
      let e : (t.cursor == t.columns * t.lines) ≡ true = ground (arith, end) in
      let s = scrolled t p h k z in
      rw e (redirtied (fill 0 (size t) true (tty_upd_scrollup t).dirty) s.0, s.1)

  pub rubbed :
      p.row < p.top + t.lines
      → Looks t.lines t.columns t.fg t.bg
          (record t { buf = update t.buf t.cursor (record (t.buf t.cursor) { ch = 0 }) })
          (record p { text = set_at p.row p.col (record (p.text p.row p.col) { ch = 0 }) p.text })
  rubbed k =
      subst
        (λ c.
          Looks t.lines t.columns t.fg t.bg
            (record t { buf = update t.buf t.cursor (record (t.buf t.cursor) { ch = 0 }) })
            (record p { text = set_at p.row p.col (record c { ch = 0 }) p.text }))
        (under t p h k) (written t p h (record (t.buf t.cursor) { ch = 0 }) k)

  pub line_start : t.cursor - t.cursor % t.columns ≡ (p.row - p.top) * t.columns + 0
  line_start = omega (
    arith,
    h.at,
    ap (λ n. n % t.columns) h.at
        ∙ mul-add-mod_self_right (p.row - p.top) t.columns p.col
        ∙ mod-eq_of_lt h.in_row,
  )

pub at_newline :
    (u : Screen) (p : Page) (mark : Screen → Screen)
    → Looks u.lines u.columns u.fg u.bg u (record p { row = p.row + 1; col = 0 })
    → Looks u.lines u.columns u.fg u.bg (mark u) (record p { row = p.row + 1; col = 0 })
    → p.row < p.top + u.lines
    → Shows u.lines u.columns u.fg u.bg (settle mark u) (new_line u.lines u.columns p)
unfolding new_line
at_newline u p mark hu hm k = elim (Bool-cases (p.row + 1 == p.top + u.lines)) [
  | inl b ↦ rw b (
      settled_over u (record p { row = p.row + 1; col = 0 }) hu mark
        (==→eq (p.row + 1) (p.top + u.lines) b) refl)
  | inr b ↦ rw b (
      settled_in u (record p { row = p.row + 1; col = 0 }) hu mark hm
        (omega (arith, k, ==→ne (p.row + 1) (p.top + u.lines) b)))
]
