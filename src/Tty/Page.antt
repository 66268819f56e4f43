-- ===== src/Tty/Page.antt =====
-- The terminal that a screen is meant to be: an endless page of rows, written from the first row on,
-- of which the rows from `top` on are seen.
use os_workbench.Base.{ℕ, ◌+◌, ◌-◌, ◌&&◌, List, [], ◌∷◌, ◌==◌, if◌then◌else◌}
use os_workbench.Tty.Screen.{Cell, tty_defaultch, cr, backsp, lf}

pub record Page : Type 0 where
  pub text : ℕ → ℕ → Cell
  pub row : ℕ
  pub col : ℕ
  pub top : ℕ

abbrev pub blank : Page
blank = record { text = λ _ _. tty_defaultch; row = 0; col = 0; top = 0 }

abbrev pub set_at : ℕ → ℕ → Cell → (ℕ → ℕ → Cell) → ℕ → ℕ → Cell
set_at r c x text r' c' = if (r' == r) && (c' == c) then x else text r' c'

module _ (lines columns : ℕ) where
  -- To the start of the next row; the page moves up when that row is below what is seen.
  unfoldable pub new_line : Page → Page
  new_line p = record p {
    row = p.row + 1;
    col = 0;
    top = if (p.row + 1) == (p.top + lines) then p.top + 1 else p.top;
  }

  -- Back over the byte before, within what is seen.
  unfoldable pub step_back : Page → Page
  step_back p =
      if p.col == 0
      then (if p.row == p.top then p else record p { row = p.row - 1; col = columns - 1 })
      else record p { col = p.col - 1 }

  unfoldable pub rub_out : Page → Page
  unfolding step_back
  rub_out p =
      let q = step_back p in
      if (p.col == 0) && (p.row == p.top)
      then p
      else record q { text = set_at q.row q.col (record (q.text q.row q.col) { ch = 0 }) q.text }

  unfoldable pub put : (fg bg ch : ℕ) → Page → Page
  unfolding new_line
  put fg bg ch p =
      let q = record p {
        text = set_at p.row p.col (record { ch = ch; fg = fg; bg = bg }) p.text;
      } in
      if (p.col + 1) == columns then new_line q else record q { col = p.col + 1 }

  unfoldable pub type_byte : (fg bg ch : ℕ) → Page → Page
  unfolding new_line rub_out put
  type_byte fg bg ch p =
      if ch == cr
      then record p { col = 0 }
      else if ch == backsp
      then rub_out p
      else if ch == lf
      then new_line p
      else put fg bg ch p

  unfoldable pub type_bytes : (fg bg : ℕ) → List ℕ → Page → Page
  unfolding type_byte
  type_bytes fg bg [] p = p
  type_bytes fg bg (ch ∷ s) p = type_bytes fg bg s (type_byte fg bg ch p)
