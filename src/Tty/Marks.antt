-- ===== src/Tty/Marks.antt =====
-- What tty.c marks is enough: a cell that is not marked looks as it did.
use os_workbench.Base.{
  ℕ, ◌+◌, ◌-◌, ◌*◌, ◌/◌, ◌%◌, ◌<◌, ◌≡◌, refl, ◌≢◌, true, false, List, [], ◌∷◌, arith, ◌==◌, ltb,
  update, ap, ◌∙◌, sym, Bool-cases, inl, inr, ltb→lt,
}
use native.Mathlib.Nat.{div-add-mod, mul-add-mod_self_right, mod-eq_of_lt, mod-lt, mul_comm}
use os_workbench.Tty.Screen.{
  Cell, Screen, size, fill, tty_upd_cr, tty_upd_lf, tty_upd_backsp, tty_upd_putc, tty_mark,
  tty_mark_line, cr, backsp, lf, settle, tty_putc, tty_write,
}
use os_workbench.Tty.Shows.{index-lt}
use os_workbench.Tty.Render.{tile_of, tty_render, Display, fb_write}
use os_workbench.Tty.Draw.{at_cell, Fresh, render-Fresh, render-other}
use os_workbench.Tty.Marked.{fill-false, mark-false, settled-Marked, Marked}

module _ (t : Screen) (columns_pos : 0 < t.columns) where
  line_past : (c : ℕ) → c < c - c % t.columns + t.columns
  line_past c = omega (arith, mod-lt c columns_pos)

  start-mod : (t.cursor - t.cursor % t.columns) % t.columns ≡ 0
  start-mod =
      let q = t.cursor / t.columns in
      let e : t.cursor - t.cursor % t.columns ≡ q * t.columns + 0 =
        omega (arith, div-add-mod t.cursor t.columns, mul_comm q t.columns) in
      ap (λ n. n % t.columns) e ∙ mul-add-mod_self_right q t.columns 0 ∙ mod-eq_of_lt columns_pos

  cr-Marked : Marked t (tty_mark_line (tty_upd_cr t).cursor (tty_upd_cr t))
  unfolding tty_mark_line tty_upd_cr
  cr-Marked =
      let s = t.cursor - t.cursor % t.columns in
      record {
        same_lines = refl;
        same_columns = refl;
        still = λ i a b.
            let f = fill-false (s - s % t.columns) t.columns t.dirty i b in
            (
              f.0,
              refl,
              λ e. f.1 (omega (arith, e)) (omega (arith, e, start-mod, line_past t.cursor)),
              λ e. f.1 (omega (arith, e)) (omega (arith, e, line_past s)),
            );
      }

  lf-Marked : Marked t (
      settle
        (λ u. tty_mark_line u.cursor (tty_mark_line (u.cursor - u.columns) u))
        (tty_upd_lf (tty_upd_cr t)))
  unfolding tty_mark_line tty_upd_cr tty_upd_lf
  lf-Marked =
      let s = t.cursor - t.cursor % t.columns in
      let c = s + t.columns in
      let b = c - t.columns in
      let back : b ≡ s = omega arith in
      let back_mod : b % t.columns ≡ 0 = ap (λ n. n % t.columns) back ∙ start-mod in
      settled-Marked t (tty_upd_lf (tty_upd_cr t))
        (λ u. tty_mark_line u.cursor (tty_mark_line (u.cursor - u.columns) u)) refl refl
        (record {
          same_lines = refl;
          same_columns = refl;
          still = λ i k d.
              let m = fill (b - b % t.columns) t.columns true t.dirty in
              let f = fill-false (c - c % t.columns) t.columns m i d in
              let g = fill-false (b - b % t.columns) t.columns t.dirty i f.0 in
              (
                g.0,
                refl,
                λ e.
                    g.1 (omega (arith, e, back))
                      (omega (arith, e, back, back_mod, line_past t.cursor)),
                λ e. f.1 (omega (arith, e)) (omega (arith, e, line_past c)),
              );
        })

  backsp-Marked : Marked t (
      tty_mark
        ((tty_upd_backsp t).cursor + 1)
        (tty_mark (tty_upd_backsp t).cursor (tty_upd_backsp t)))
  unfolding tty_mark tty_upd_backsp
  backsp-Marked = elim (Bool-cases (ltb 0 t.cursor)) [
    | inl e ↦
        let pos = ltb→lt 0 t.cursor e in
        rw e (record {
          same_lines = refl;
          same_columns = refl;
          still = λ i k d.
              let f = mark-false (t.cursor - 1 + 1) (update t.dirty (t.cursor - 1) true) i d in
              let g = mark-false (t.cursor - 1) t.dirty i f.0 in
              let other : (i == t.cursor - 1) ≡ false = ground (arith, g.1) in
              (g.0, rw other refl, λ q. f.1 (omega (arith, q, pos)), g.1);
        })
    | inr e ↦ rw e (record {
      same_lines = refl;
      same_columns = refl;
      still = λ i k d.
          let f = mark-false (t.cursor + 1) (update t.dirty t.cursor true) i d in
          let g = mark-false t.cursor t.dirty i f.0 in (g.0, refl, g.1, g.1);
    })
  ]

  put-Marked :
      (ch : ℕ)
      → Marked t (settle (λ u. tty_mark u.cursor (tty_mark (u.cursor - 1) u)) (tty_upd_putc ch t))
  unfolding tty_mark tty_upd_putc
  put-Marked ch =
      settled-Marked t (tty_upd_putc ch t) (λ u. tty_mark u.cursor (tty_mark (u.cursor - 1) u)) refl
        refl
        (record {
          same_lines = refl;
          same_columns = refl;
          still = λ i k d.
              let f = mark-false (t.cursor + 1) (update t.dirty (t.cursor + 1 - 1) true) i d in
              let g = mark-false (t.cursor + 1 - 1) t.dirty i f.0 in
              let ne : i ≢ t.cursor = λ q. g.1 (omega (arith, q)) in
              let other : (i == t.cursor) ≡ false = ground (arith, ne) in
              (g.0, rw other refl, ne, f.1);
        })

  putc-Marked : (ch : ℕ) → Marked t (tty_putc ch t)
  unfolding tty_putc
  putc-Marked ch = elim (Bool-cases (ch == cr)) [
    | inl a ↦ rw a cr-Marked
    | inr a ↦ elim (Bool-cases (ch == backsp)) [
      | inl b ↦ rw a (rw b backsp-Marked)
      | inr b ↦ elim (Bool-cases (ch == lf)) [
        | inl c ↦ rw a (rw b (rw c lf-Marked))
        | inr c ↦ rw a (rw b (rw c (put-Marked ch)))
      ]
    ]
  ]

tile-still :
    (t u : Screen) (i h : ℕ)
    → u.buf i ≡ t.buf i
    → i ≢ t.cursor
    → i ≢ u.cursor
    → tile_of u i h ≡ tile_of t i h
tile-still t u i h e a b =
    let et : (i == t.cursor) ≡ false = ground (arith, a) in
    let eu : (i == u.cursor) ≡ false = ground (arith, b) in
    rw (eu, et) (ap (λ (x : Cell). record { texture = x.ch * 2 + 1 + h; fg = x.fg; bg = x.bg }) e)

Marked-Fresh : (d : Display) (t u : Screen) → Marked t u → Fresh d t → Fresh d u
Marked-Fresh d t u m f r c h a b k e =
    let i = r * u.columns + c in
    let j = r * t.columns + c in
    let ij : i ≡ j = ap (λ n. r * n + c) m.same_columns in
    let lt : i < size t = omega (
      arith,
      index-lt u.columns u.lines r c b a,
      ap (λ n. n * u.lines) m.same_columns,
      ap (λ n. t.columns * n) m.same_lines,
    ) in
    let s = m.still i lt e in
    f r c h (omega (arith, m.same_lines)) (omega (arith, m.same_columns)) k
      (ap t.dirty (sym ij) ∙ s.0)
    ∙ ap (λ n. tile_of t n h) (sym ij)
    ∙ sym (tile-still t u i h s.1 s.2 s.3)

write-Fresh :
    (d : Display) (s : List ℕ) (t : Screen) → 0 < t.columns → Fresh d t → Fresh d (tty_write s t)
unfolding tty_write
write-Fresh d [] t k f = f
write-Fresh d (ch ∷ s) t k f =
    let m = putc-Marked t k ch in
    write-Fresh d s (tty_putc ch t) (omega (arith, m.same_columns))
      (Marked-Fresh d t (tty_putc ch t) m f)

write-size :
    (s : List ℕ) (t : Screen)
    → 0 < t.columns
    → ((tty_write s t).lines ≡ t.lines) × ((tty_write s t).columns ≡ t.columns)
unfolding tty_write
write-size [] t k = (refl, refl)
write-size (ch ∷ s) t k =
    let m = putc-Marked t k ch in
    let r = write-size s (tty_putc ch t) (omega (arith, m.same_columns)) in
    (r.0 ∙ m.same_lines, r.1 ∙ m.same_columns)

-- When the display shows every cell that is not marked, then after any bytes are written and the screen
-- of the terminal in front is drawn, it shows every cell of the screen: both halves of its character in
-- its colours, and the block in the cursor's cell. While another display is in front, drawing changes
-- nothing. The screen has a column.
pub tty_write-render :
    (p : ℕ) (d : Display) (s : List ℕ) (t : Screen)
    → 0 < t.columns
    → Fresh d t
    → ((r c h : ℕ)
        → r < t.lines
        → c < t.columns
        → h < 2
        → at_cell (fb_write p (tty_render p (tty_write s t)) d) r c h
          ≡ tile_of (tty_write s t) (r * t.columns + c) h)
      × ((current : ℕ) → current ≢ p → fb_write current (tty_render p (tty_write s t)) d ≡ d)
tty_write-render p d s t k f =
    let z = write-size s t k in
    (
      λ r c h a b l.
          render-Fresh p d (tty_write s t) (write-Fresh d s t k f) r c h (omega (arith, z.0))
            (omega (arith, z.1)) l
          ∙ ap (λ n. tile_of (tty_write s t) (r * n + c) h) z.1,
      λ current n. render-other p current d (tty_write s t) n,
    )
