-- ===== src/Tty/Shows.antt =====
-- What it means for a screen of tty.c to show an endless page, and the change that moves it up a line.
use os_workbench.Base.{
  ℕ, zero, suc, ◌+◌, ◌-◌, ◌*◌, ◌≤◌, ◌<◌, ◌≡◌, refl, Bool, false, arith, ◌==◌, ltb, ap, ◌∙◌, sym,
  Bool-cases, inl, inr, ==→ne, ltb→lt, ltb→le,
}
use native.Mathlib.Nat.{suc-mul, mul_comm}
use os_workbench.Tty.Screen.{Screen, tty_defaultch, fill, move_down, tty_upd_scrollup}
use os_workbench.Tty.Page.{Page}

-- The index of a row and a column.
pub index-inj : (m r c r' c' : ℕ) → c < m → c' < m → r * m + c ≡ r' * m + c' → (r ≡ r') × (c ≡ c')
index-inj m zero c zero c' h k e = (refl, omega arith)
index-inj m zero c (suc r') c' h k e = absurd (omega (arith, suc-mul r' m))
index-inj m (suc r) c zero c' h k e = absurd (omega (arith, suc-mul r m))
index-inj m (suc r) c (suc r') c' h k e =
    let q = index-inj m r c r' c' h k (omega (arith, suc-mul r m, suc-mul r' m)) in
    (ap suc q.0, q.1)

pub index-lt : (m n r c : ℕ) → c < m → r < n → r * m + c < m * n
index-lt m zero r c h k = absurd (omega arith)
index-lt m (suc n) zero c h k = omega (arith, mul_comm m (suc n), suc-mul n m)
index-lt m (suc n) (suc r) c h k =
    let ih = index-lt m n r c h (omega arith) in
    omega (arith, ih, suc-mul r m, mul_comm m (suc n), suc-mul n m, mul_comm m n)

pub fill-in :
    {A : Type 0} (p n : ℕ) (v : A) (m : ℕ → A) (i : ℕ) → p ≤ i → i < p + n → fill p n v m i ≡ v
unfolding fill
fill-in p zero v m i h k = absurd (omega arith)
fill-in p (suc n) v m i h k = elim (Bool-cases (i == p + n)) [
  | inl e ↦ rw e refl
  | inr e ↦ rw e (fill-in p n v m i h (omega (arith, ==→ne i (p + n) e)))
]

pub fill-out : {A : Type 0} (p n : ℕ) (v : A) (m : ℕ → A) (i : ℕ) → i < p → fill p n v m i ≡ m i
unfolding fill
fill-out p zero v m i h = refl
fill-out p (suc n) v m i h =
    let e : (i == p + n) ≡ false = ground arith in rw e (fill-out p n v m i h)

move_down-lt : {A : Type 0} (k n : ℕ) (m : ℕ → A) (i : ℕ) → i < n → move_down k n m i ≡ m (i + k)
unfolding move_down
move_down-lt k n m i h = ground arith

pub fill-past :
    {A : Type 0} (p n : ℕ) (v : A) (m : ℕ → A) (i : ℕ) → p + n ≤ i → fill p n v m i ≡ m i
unfolding fill
fill-past p zero v m i h = refl
fill-past p (suc n) v m i h =
    let e : (i == p + n) ≡ false = ground arith in rw e (fill-past p n v m i (omega arith))

-- The screen `t` shows the rows of the page `p` from `top` on; the cursor is at the page's place, which
-- may be the row just below the screen.
pub record Looks (lines columns fg bg : ℕ) (t : Screen) (p : Page) : Type 0 where
  pub has_lines : t.lines ≡ lines
  pub has_columns : t.columns ≡ columns
  pub has_fg : t.fg ≡ fg
  pub has_bg : t.bg ≡ bg
  pub some_lines : 0 < lines
  pub some_columns : 0 < columns
  pub in_row : p.col < columns
  pub from_top : p.top ≤ p.row
  pub at : t.cursor ≡ (p.row - p.top) * columns + p.col
  pub same : (r c : ℕ) → r < lines → c < columns → t.buf (r * columns + c) ≡ p.text (p.top + r) c
  pub below : (r c : ℕ) → p.top + lines ≤ r → p.text r c ≡ tty_defaultch

-- And the page's place is on the screen.
abbrev pub Shows : (lines columns fg bg : ℕ) → Screen → Page → Type 0
Shows lines columns fg bg t p = Looks lines columns fg bg t p × (p.row < p.top + lines)

pub redirtied :
    {lines columns fg bg : ℕ} {t : Screen} {p : Page} (d : ℕ → Bool)
    → Looks lines columns fg bg t p
    → Looks lines columns fg bg (record t { dirty = d }) p
redirtied d h = record {
  has_lines = h.has_lines;
  has_columns = h.has_columns;
  has_fg = h.has_fg;
  has_bg = h.has_bg;
  some_lines = h.some_lines;
  some_columns = h.some_columns;
  in_row = h.in_row;
  from_top = h.from_top;
  at = h.at;
  same = h.same;
  below = h.below;
}

module _ (t : Screen) (p : Page) (h : Looks t.lines t.columns t.fg t.bg t p) where
  pub scrolled :
      p.row ≡ p.top + t.lines
      → p.col ≡ 0
      → Shows t.lines t.columns t.fg t.bg (tty_upd_scrollup t) (record p { top = p.top + 1 })
  unfolding tty_upd_scrollup
  scrolled e z = (
    record {
      has_lines = refl;
      has_columns = refl;
      has_fg = refl;
      has_bg = refl;
      some_lines = h.some_lines;
      some_columns = h.some_columns;
      in_row = h.in_row;
      from_top = omega (arith, h.some_lines);
      at = at';
      same = same';
      below = λ r c k. h.below r c (omega arith);
    },
    omega arith,
  )
    where
      n : ℕ
      n = t.lines - 1

      rows : p.row - p.top ≡ suc n
      rows = omega (arith, h.some_lines)

      rows' : p.row - (p.top + 1) ≡ n
      rows' = omega (arith, h.some_lines)

      last : t.cursor - t.columns ≡ n * t.columns
      last = omega (arith, h.at, ap (λ k. k * t.columns) rows, suc-mul n t.columns)

      at' : t.cursor - t.columns ≡ (p.row - (p.top + 1)) * t.columns + p.col
      at' = omega (arith, last, ap (λ k. k * t.columns) rows')

      same' :
          (r c : ℕ)
          → r < t.lines
          → c < t.columns
          → fill
              (t.cursor - t.columns)
              t.columns
              tty_defaultch
              (move_down t.columns (t.columns * n) t.buf)
              (r * t.columns + c)
            ≡ p.text (p.top + 1 + r) c
      same' r c k l = elim (Bool-cases (ltb r n)) [
        | inl b ↦
            let low = index-lt t.columns n r c l (ltb→lt r n b) in
            fill-out (t.cursor - t.columns) t.columns tty_defaultch
              (move_down t.columns (t.columns * n) t.buf) (r * t.columns + c)
              (omega (arith, last, low, mul_comm t.columns n))
            ∙ move_down-lt t.columns (t.columns * n) t.buf (r * t.columns + c) low
            ∙ ap t.buf (omega (arith, suc-mul r t.columns))
            ∙ h.same (suc r) c (omega (arith, ltb→lt r n b)) l
            ∙ ap (λ i. p.text i c) (omega arith)
        | inr b ↦
            let e' : r ≡ n = omega (arith, ltb→le r n b) in
            fill-in (t.cursor - t.columns) t.columns tty_defaultch
              (move_down t.columns (t.columns * n) t.buf) (r * t.columns + c)
              (omega (arith, last, ap (λ k. k * t.columns) e'))
              (omega (arith, last, ap (λ k. k * t.columns) e'))
            ∙ sym (h.below (p.top + 1 + r) c (omega arith))
      ]
