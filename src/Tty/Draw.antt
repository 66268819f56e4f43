-- ===== src/Tty/Draw.antt =====
-- The display after a drawing of tty.c.
use os_workbench.Base.{
  ℕ, zero, suc, ◌+◌, ◌-◌, ◌*◌, ◌≤◌, ◌<◌, ◌≡◌, refl, ◌≢◌, true, false, ltb, All, ==_refl, List, [],
  ◌∷◌, ◌++◌, arith, ◌==◌, if◌then◌else◌, ap, ◌∙◌, sym, Bool-cases, inl, inr, ==→eq, ==→ne,
}
use native.Mathlib.Nat.{suc-mul}
use os_workbench.Tty.Screen.{Screen}
use os_workbench.Tty.Render.{
  Tile, Sprite, tile_of, render_cell, render_row, render_rows, tty_render, Display, draw, fb_write,
}

-- Sprites drawn with no test.
unfoldable pub paint : List Sprite → Display → Display
paint [] d = d
paint (s ∷ r) d = paint r (draw s d)

-- Sprites of the display `p` with a texture.
abbrev From : ℕ → List Sprite → Type 0
From p l = All (λ s. (ltb 0 s.tile.texture ≡ true) × (s.display ≡ p)) l

From-append : (p : ℕ) (l r : List Sprite) → From p l → From p r → From p (l ++ r)
From-append p [] r a b = b
From-append p (s ∷ l) r a b = (a.0, From-append p l r a.1 b)

cell-From : (p : ℕ) (t : Screen) (y x i : ℕ) → From p (render_cell p t y x i)
unfolding render_cell
cell-From p t y x i = elim (Bool-cases (t.dirty i)) [
  | inl e ↦ rw e ((ground arith, refl), ((ground arith, refl), tt))
  | inr e ↦ rw e tt
]

row-From : (p : ℕ) (t : Screen) (y x i n : ℕ) → From p (render_row p t y x i n)
unfolding render_row
row-From p t y x i zero = tt
row-From p t y x i (suc n) =
    From-append p (render_cell p t y x i) (render_row p t y (x + 1) (i + 1) n) (cell-From p t y x i)
      (row-From p t y (x + 1) (i + 1) n)

rows-From : (p : ℕ) (t : Screen) (y i m : ℕ) → From p (render_rows p t y i m)
unfolding render_rows
rows-From p t y i zero = tt
rows-From p t y i (suc m) =
    From-append p (render_row p t y 0 i t.columns) (render_rows p t (y + 1) (i + t.columns) m)
      (row-From p t y 0 i t.columns) (rows-From p t (y + 1) (i + t.columns) m)

render-From : (p : ℕ) (t : Screen) → From p (tty_render p t)
unfolding tty_render
render-From p t = rows-From p t 0 0 t.lines

-- The display in front takes all of its sprites, and none of another.
fb_write-paint : (p : ℕ) (l : List Sprite) (d : Display) → From p l → fb_write p l d ≡ paint l d
unfolding fb_write paint
fb_write-paint p [] d f = refl
fb_write-paint p (s ∷ l) d f =
    let here : (s.display == p) ≡ true = ap (λ n. n == p) f.0.1 ∙ ==_refl p in
    rw (f.0.0, here) (fb_write-paint p l (draw s d) f.1)

fb_write-other :
    (p current : ℕ) (l : List Sprite) (d : Display)
    → From p l
    → current ≢ p
    → fb_write current l d ≡ d
unfolding fb_write
fb_write-other p current [] d f n = refl
fb_write-other p current (s ∷ l) d f n =
    let there : (s.display == current) ≡ false = ap (λ m. m == current) f.0.1 ∙ ground (arith, n) in
    rw (f.0.0, there) (fb_write-other p current l d f.1 n)

paint-append : (l r : List Sprite) (d : Display) → paint (l ++ r) d ≡ paint r (paint l d)
unfolding paint
paint-append [] r d = refl
paint-append (s ∷ l) r d = paint-append l r (draw s d)

-- The half `h` of the cell at row `r` and column `c`, on a display.
abbrev pub at_cell : Display → (r c h : ℕ) → Tile
at_cell d r c h = d (c * 8) (r * 16 + h * 8)

cell-hit :
    (p : ℕ) (t : Screen) (r c i h : ℕ) (d : Display)
    → h < 2
    → at_cell (paint (render_cell p t r c i) d) r c h
      ≡ (if t.dirty i then tile_of t i h else at_cell d r c h)
unfolding paint render_cell
cell-hit p t r c i zero d k = elim (Bool-cases (t.dirty i)) [
  | inl e ↦ rw e (ground arith)
  | inr e ↦ rw e refl
]
cell-hit p t r c i (suc zero) d k = elim (Bool-cases (t.dirty i)) [
  | inl e ↦ rw e (ground arith)
  | inr e ↦ rw e refl
]
cell-hit p t r c i (suc (suc h)) d k = absurd (omega arith)

-- A cell elsewhere is left alone.
cell-miss :
    (p : ℕ) (t : Screen) (y x i r c h : ℕ) (d : Display)
    → h < 2
    → (r ≡ y → c ≢ x)
    → at_cell (paint (render_cell p t y x i) d) r c h ≡ at_cell d r c h
unfolding paint render_cell
cell-miss p t y x i r c h d k n = elim (Bool-cases (t.dirty i)) [
  | inl e ↦ rw e (ground arith)
  | inr e ↦ rw e refl
]

module _ (p : ℕ) (t : Screen) (c r h : ℕ) (k : h < 2) where
  row-miss :
      (n y x i : ℕ) (d : Display)
      → (r ≡ y → x ≤ c → c < x + n → ⊥)
      → at_cell (paint (render_row p t y x i n) d) r c h ≡ at_cell d r c h
  unfolding render_row paint
  row-miss zero y x i d m = refl
  row-miss (suc n) y x i d m =
      ap (λ e. at_cell e r c h)
        (paint-append (render_cell p t y x i) (render_row p t y (x + 1) (i + 1) n) d)
      ∙ row-miss n y (x + 1) (i + 1) (paint (render_cell p t y x i) d)
          (λ e a b. m e (omega arith) (omega arith))
      ∙ cell-miss p t y x i r c h d k (λ e a. m e (omega arith) (omega arith))

  -- What a drawing leaves in the cell whose index is `i`.
  abbrev drawn : (i : ℕ) → Display → Tile
  drawn i d = if t.dirty i then tile_of t i h else at_cell d r c h

  row-hit :
      (n x i : ℕ) (d : Display)
      → x ≤ c
      → c < x + n
      → at_cell (paint (render_row p t r x i n) d) r c h ≡ drawn (i + (c - x)) d
  unfolding render_row paint
  row-hit zero x i d a b = absurd (omega arith)
  row-hit (suc n) x i d a b = elim (Bool-cases (c == x)) [
    | inl e ↦
        let here : x ≡ c = sym (==→eq c x e) in
        let this : i ≡ i + (c - x) = omega (arith, here) in
        split
        ∙ row-miss n r (x + 1) (i + 1) first (λ q w s. omega (arith, here))
        ∙ ap (λ w. at_cell (paint (render_cell p t r w i) d) r c h) here
        ∙ cell-hit p t r c i h d k
        ∙ ap (λ j. drawn j d) this
    | inr e ↦
        let other : c ≢ x = ==→ne c x e in
        let this : i + 1 + (c - (x + 1)) ≡ i + (c - x) = omega (arith, other) in
        split
        ∙ row-hit n (x + 1) (i + 1) first (omega (arith, other)) (omega arith)
        ∙ ap
            (λ v.
              if t.dirty (i + 1 + (c - (x + 1))) then tile_of t (i + 1 + (c - (x + 1))) h else v)
            (cell-miss p t r x i r c h d k (λ q. other))
        ∙ ap (λ j. drawn j d) this
  ]
    where
      first : Display
      first = paint (render_cell p t r x i) d

      split :
          at_cell (paint (render_row p t r x i (suc n)) d) r c h
          ≡ at_cell (paint (render_row p t r (x + 1) (i + 1) n) first) r c h
      split =
          ap (λ e. at_cell e r c h)
            (paint-append (render_cell p t r x i) (render_row p t r (x + 1) (i + 1) n) d)

  rows-miss :
      (m y i : ℕ) (d : Display)
      → r < y
      → at_cell (paint (render_rows p t y i m) d) r c h ≡ at_cell d r c h
  unfolding render_rows paint
  rows-miss zero y i d a = refl
  rows-miss (suc m) y i d a =
      ap (λ e. at_cell e r c h)
        (paint-append (render_row p t y 0 i t.columns) (render_rows p t (y + 1) (i + t.columns) m)
          d)
      ∙ rows-miss m (y + 1) (i + t.columns) (paint (render_row p t y 0 i t.columns) d) (omega arith)
      ∙ row-miss t.columns y 0 i d (λ e w q. omega arith)

  rows-hit :
      (m y i : ℕ) (d : Display)
      → c < t.columns
      → y ≤ r
      → r < y + m
      → at_cell (paint (render_rows p t y i m) d) r c h ≡ drawn (i + (r - y) * t.columns + c) d
  unfolding render_rows paint
  rows-hit zero y i d l a b = absurd (omega arith)
  rows-hit (suc m) y i d l a b = elim (Bool-cases (r == y)) [
    | inl e ↦
        let here : y ≡ r = sym (==→eq r y e) in
        let this : i + (c - 0) ≡ i + (r - y) * t.columns + c =
          omega (arith, ap (λ n. n * t.columns) (level here)) in
        split
        ∙ rows-miss m (y + 1) (i + t.columns) first (omega (arith, here))
        ∙ ap (λ w. at_cell (paint (render_row p t w 0 i t.columns) d) r c h) here
        ∙ row-hit t.columns 0 i d (omega arith) (omega arith)
        ∙ ap (λ j. drawn j d) this
    | inr e ↦
        let other : r ≢ y = ==→ne r y e in
        let up : r - y ≡ suc (r - (y + 1)) = omega (arith, other) in
        let this : i + t.columns + (r - (y + 1)) * t.columns + c ≡ i + (r - y) * t.columns + c =
          omega (arith, ap (λ n. n * t.columns) up, suc-mul (r - (y + 1)) t.columns) in
        let j = i + t.columns + (r - (y + 1)) * t.columns + c in
        split
        ∙ rows-hit m (y + 1) (i + t.columns) first l (omega (arith, other)) (omega arith)
        ∙ ap (λ v. if t.dirty j then tile_of t j h else v)
            (row-miss t.columns y 0 i d (λ q w s. other q))
        ∙ ap (λ j. drawn j d) this
  ]
    where
      level : y ≡ r → r - y ≡ 0
      level e = omega arith

      first : Display
      first = paint (render_row p t y 0 i t.columns) d

      split :
          at_cell (paint (render_rows p t y i (suc m)) d) r c h
          ≡ at_cell (paint (render_rows p t (y + 1) (i + t.columns) m) first) r c h
      split =
          ap (λ e. at_cell e r c h)
            (paint-append (render_row p t y 0 i t.columns)
              (render_rows p t (y + 1) (i + t.columns) m) d)

-- A display shows every cell that is not marked.
abbrev pub Fresh : Display → Screen → Type 0
Fresh d t =
    (r c h : ℕ)
    → r < t.lines
    → c < t.columns
    → h < 2
    → t.dirty (r * t.columns + c) ≡ false
    → at_cell d r c h ≡ tile_of t (r * t.columns + c) h

pub render-Fresh :
    (p : ℕ) (d : Display) (t : Screen)
    → Fresh d t
    → (r c h : ℕ) → r < t.lines
    → c < t.columns
    → h < 2
    → at_cell (fb_write p (tty_render p t) d) r c h ≡ tile_of t (r * t.columns + c) h
unfolding tty_render
render-Fresh p d t f r c h a b k =
    let whole : r - 0 ≡ r = omega arith in
    let this : 0 + (r - 0) * t.columns + c ≡ r * t.columns + c =
      omega (arith, ap (λ n. n * t.columns) whole) in
    ap (λ e. at_cell e r c h) (fb_write-paint p (tty_render p t) d (render-From p t))
    ∙ rows-hit p t c r h k t.lines 0 0 d b (omega arith) (omega arith)
    ∙ ap (λ j. drawn p t c r h k j d) this
    ∙ elim (Bool-cases (t.dirty (r * t.columns + c))) [
      | inl e ↦ rw e refl
      | inr e ↦ rw e (f r c h a b k e)
    ]

pub render-other :
    (p current : ℕ) (d : Display) (t : Screen)
    → current ≢ p
    → fb_write current (tty_render p t) d ≡ d
render-other p current d t n = fb_write-other p current (tty_render p t) d (render-From p t) n
