-- ===== src/Tty/Steps.antt =====
-- What moving the cursor of tty.c and writing under it do to what the screen shows.
use os_workbench.Base.{
  ℕ, ◌+◌, ◌-◌, ◌*◌, ◌≤◌, ◌<◌, ◌≡◌, refl, false, ◌&&◌, arith, ◌==◌, if◌then◌else◌, update, ap, ◌∙◌,
  Bool-cases, inl, inr, ==→eq, ==→ne,
}
use os_workbench.Tty.Screen.{Cell, Screen}
use os_workbench.Tty.Page.{Page, set_at}
use os_workbench.Tty.Shows.{Looks, index-inj}

module _ (t : Screen) (p : Page) (h : Looks t.lines t.columns t.fg t.bg t p) where
  -- The cursor elsewhere, over the same rows.
  pub moved :
      (row col cursor : ℕ)
      → col < t.columns
      → p.top ≤ row
      → cursor ≡ (row - p.top) * t.columns + col
      → Looks t.lines t.columns t.fg t.bg
          (record t { cursor = cursor })
          (record p { row = row; col = col })
  moved row col cursor a b e = record {
    has_lines = refl;
    has_columns = refl;
    has_fg = refl;
    has_bg = refl;
    some_lines = h.some_lines;
    some_columns = h.some_columns;
    in_row = a;
    from_top = b;
    at = e;
    same = h.same;
    below = h.below;
  }

  pub under : p.row < p.top + t.lines → t.buf t.cursor ≡ p.text p.row p.col
  under k =
      ap t.buf h.at
      ∙ h.same (p.row - p.top) p.col (omega (arith, h.from_top)) h.in_row
      ∙ ap (λ i. p.text i p.col) (omega (arith, h.from_top))

  spot :
      (r c : ℕ)
      → c < t.columns
      → (r * t.columns + c == t.cursor) ≡ ((p.top + r == p.row) && (c == p.col))
  spot r c l = elim (Bool-cases (r * t.columns + c == t.cursor)) [
    | inl b ↦
        let q =
          index-inj t.columns r c (p.row - p.top) p.col l h.in_row
            (==→eq (r * t.columns + c) t.cursor b ∙ h.at) in
        ground (arith, b, q.0, q.1, h.from_top)
    | inr b ↦ elim (Bool-cases (p.top + r == p.row)) [
      | inl d ↦ elim (Bool-cases (c == p.col)) [
        | inl e ↦ absurd (
            ==→ne (r * t.columns + c) t.cursor b (
              omega (
                arith,
                h.at,
                ==→eq c p.col e,
                ap (λ n. n * t.columns) (spot_row r (==→eq (p.top + r) p.row d)),
              )))
        | inr e ↦ rw b (rw d (rw e refl))
      ]
      | inr d ↦ rw b (rw d refl)
    ]
  ]
    where
      spot_row : (r : ℕ) → p.top + r ≡ p.row → r ≡ p.row - p.top
      spot_row r e = omega arith

  pub written :
      (x : Cell)
      → p.row < p.top + t.lines
      → Looks t.lines t.columns t.fg t.bg
          (record t { buf = update t.buf t.cursor x })
          (record p { text = set_at p.row p.col x p.text })
  written x k = record {
    has_lines = refl;
    has_columns = refl;
    has_fg = refl;
    has_bg = refl;
    some_lines = h.some_lines;
    some_columns = h.some_columns;
    in_row = h.in_row;
    from_top = h.from_top;
    at = h.at;
    same = λ r c a b.
        ap (λ v. if v then x else t.buf (r * t.columns + c)) (spot r c b)
        ∙ ap (λ v. if (p.top + r == p.row) && (c == p.col) then x else v) (h.same r c a b);
    below = λ r c a.
        let e : (r == p.row) ≡ false = ground arith in
        ap (λ v. if v && (c == p.col) then x else p.text r c) e ∙ h.below r c a;
  }
