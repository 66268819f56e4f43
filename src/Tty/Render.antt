-- ===== src/Tty/Render.antt =====
-- What `tty_render` of kernel/src/devices/tty/tty.c draws: for each cell that is marked, in the order of
-- the cells, two sprites for the halves of its character, or of a block where the cursor is; and what
-- `fb_write` of kernel/src/devices/video/video.c does with them.
use os_workbench.Base.{ℕ, zero, suc, ◌+◌, ◌*◌, ◌&&◌, List, [], ◌∷◌, ◌++◌, ◌==◌, ltb, if◌then◌else◌}
use os_workbench.Tty.Screen.{Screen}

-- `texture`, `fg` and `bg` of a sprite.
pub record Tile : Type 0 where
  pub texture : ℕ
  pub fg : ℕ
  pub bg : ℕ

-- `struct sprite`; `z` is always 0.
pub record Sprite : Type 0 where
  pub x : ℕ
  pub y : ℕ
  pub display : ℕ
  pub tile : Tile

-- The upper half of a cell is `half` 0, the lower `half` 1.
abbrev pub tile_of : Screen → (i half : ℕ) → Tile
tile_of t i half =
    let draw = if i == t.cursor then 0xdb else (t.buf i).ch in
    record { texture = draw * 2 + 1 + half; fg = (t.buf i).fg; bg = (t.buf i).bg }

-- The body of the loops; `p` is the terminal's `display`.
unfoldable pub render_cell : (p : ℕ) → Screen → (y x i : ℕ) → List Sprite
render_cell p t y x i =
    if t.dirty i
    then record { x = x * 8; y = y * 16; display = p; tile = tile_of t i 0 }
      ∷ record { x = x * 8; y = y * 16 + 8; display = p; tile = tile_of t i 1 }
      ∷ []
    else []

-- The `n` cells of row `y` from column `x` on; `i` is where `ch` and `d` point.
unfoldable pub render_row : (p : ℕ) → Screen → (y x i n : ℕ) → List Sprite
unfolding render_cell
render_row p t y x i zero = []
render_row p t y x i (suc n) = render_cell p t y x i ++ render_row p t y (x + 1) (i + 1) n

-- The `m` rows from row `y` on.
unfoldable pub render_rows : (p : ℕ) → Screen → (y i m : ℕ) → List Sprite
unfolding render_row
render_rows p t y i zero = []
render_rows p t y i (suc m) =
    render_row p t y 0 i t.columns ++ render_rows p t (y + 1) (i + t.columns) m

unfoldable pub tty_render : (p : ℕ) → Screen → List Sprite
unfolding render_rows
tty_render p t = render_rows p t 0 0 t.lines

-- What was drawn last with its corner at a place of the display, by its x and y: the texture with the
-- colours that `reload_color` gives it. Sprites stand at multiples of 8 and are 8 wide and high.
abbrev pub Display : Type 0
Display = ℕ → ℕ → Tile

abbrev pub draw : Sprite → Display → Display
draw s d = λ x y. if (x == s.x) && (y == s.y) then s.tile else d x y

-- The loop of `fb_write` over sprites, while `current` is the display in front.
unfoldable pub fb_write : (current : ℕ) → List Sprite → Display → Display
fb_write current [] d = d
fb_write current (s ∷ r) d =
    fb_write current r (if ltb 0 s.tile.texture && (s.display == current) then draw s d else d)
