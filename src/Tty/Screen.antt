-- ===== src/Tty/Screen.antt =====
-- The screen of a terminal, kernel/src/devices/tty/tty.c: the changes that a byte written makes to the
-- buffer, the cursor and the marks. An array is a map of its indices. The semaphore `lock` is held
-- over `tty_write`, so a write is one step.
use os_workbench.Base.{
  ℕ, zero, suc, ◌+◌, ◌-◌, ◌*◌, ◌/◌, ◌%◌, Bool, true, List, [], ◌∷◌, ◌==◌, ltb, if◌then◌else◌,
  update,
}

-- `struct character`; its `metadata` is always 0.
pub record Cell : Type 0 where
  pub ch : ℕ
  pub fg : ℕ
  pub bg : ℕ

-- `lines`, `columns`, `buf`, `dirty`, `cursor` and the colours of a `tty_t`.
pub record Screen : Type 0 where
  pub lines : ℕ
  pub columns : ℕ
  pub buf : ℕ → Cell
  pub dirty : ℕ → Bool
  pub cursor : ℕ
  pub fg : ℕ
  pub bg : ℕ

abbrev pub tty_defaultch : Cell
tty_defaultch = record { ch = 0; fg = 0x00ff_ffff; bg = 0x0030_0a24 }

-- `size`, which is where `end` points.
abbrev pub size : Screen → ℕ
size t = t.columns * t.lines

-- `for (int i = 0; i < n; i++) p[i] = v;`
unfoldable pub fill : {A : Type 0} → ℕ → ℕ → A → (ℕ → A) → ℕ → A
fill p zero v m = m
fill p (suc n) v m = update (fill p n v m) (p + n) v

-- `memmove` of the `n` entries from `k` on to the start.
unfoldable pub move_down : {A : Type 0} → ℕ → ℕ → (ℕ → A) → ℕ → A
move_down k n m i = if ltb i n then m (i + k) else m i

unfoldable pub tty_upd_scrollup : Screen → Screen
unfolding fill move_down
tty_upd_scrollup t =
    let move_sz = t.columns * (t.lines - 1) in
    let cursor = t.cursor - t.columns in
    record t {
      buf = fill cursor t.columns tty_defaultch (move_down t.columns move_sz t.buf);
      dirty = move_down t.columns move_sz t.dirty;
      cursor = cursor;
    }

unfoldable pub tty_upd_cr : Screen → Screen
tty_upd_cr t = record t { cursor = t.cursor - (t.cursor % t.columns) }

unfoldable pub tty_upd_lf : Screen → Screen
tty_upd_lf t = record t { cursor = t.cursor + t.columns }

unfoldable pub tty_upd_backsp : Screen → Screen
tty_upd_backsp t =
    if ltb 0 t.cursor
    then (let cursor = t.cursor - 1 in
        record t { cursor = cursor; buf = update t.buf cursor (record (t.buf cursor) { ch = 0 }) })
    else t

unfoldable pub tty_upd_putc : ℕ → Screen → Screen
tty_upd_putc ch t = record t {
  buf = update t.buf t.cursor (record { ch = ch; fg = t.fg; bg = t.bg });
  cursor = t.cursor + 1;
}

unfoldable pub tty_mark : ℕ → Screen → Screen
tty_mark ch t = record t { dirty = update t.dirty ch true }

unfoldable pub tty_mark_line : ℕ → Screen → Screen
unfolding fill
tty_mark_line ch t = record t { dirty = fill (ch - (ch % t.columns)) t.columns true t.dirty }

unfoldable pub tty_mark_all : Screen → Screen
unfolding fill
tty_mark_all t = record t { dirty = fill 0 (size t) true t.dirty }

abbrev pub cr : ℕ
cr = 13

abbrev pub backsp : ℕ
backsp = 8

abbrev pub lf : ℕ
lf = 10

-- What follows a change that may have moved the cursor off the end: the screen goes up a line, or only
-- what `mark` marks is to be drawn.
unfoldable pub settle : (mark : Screen → Screen) → Screen → Screen
settle mark t = if t.cursor == size t then tty_mark_all (tty_upd_scrollup t) else mark t

-- `tty_putc`
unfoldable pub tty_putc : ℕ → Screen → Screen
tty_putc ch t =
    if ch == cr
    then (let u = tty_upd_cr t in tty_mark_line u.cursor u)
    else if ch == backsp
    then (let u = tty_upd_backsp t in tty_mark (u.cursor + 1) (tty_mark u.cursor u))
    else if ch == lf
    then settle (λ u. tty_mark_line u.cursor (tty_mark_line (u.cursor - u.columns) u))
        (tty_upd_lf (tty_upd_cr t))
    else settle (λ u. tty_mark u.cursor (tty_mark (u.cursor - 1) u)) (tty_upd_putc ch t)

-- The loop of `tty_write`.
unfoldable pub tty_write : List ℕ → Screen → Screen
tty_write [] t = t
tty_write (ch ∷ s) t = tty_write s (tty_putc ch t)

-- `tty_init`, for a frame buffer of this width and height.
unfoldable pub tty_init : (width height : ℕ) → Screen
tty_init width height = record {
  lines = height / 16;
  columns = width / 8;
  buf = λ _. tty_defaultch;
  dirty = λ _. true;
  cursor = 0;
  fg = 0x00ff_ffff;
  bg = 0x0030_0a24;
}
