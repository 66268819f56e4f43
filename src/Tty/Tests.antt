-- ===== src/Tty/Tests.antt =====
-- Runs of a terminal.
use os_workbench.Base.{
  map, ◌≢◌, ◌++◌, ℕ, ◌+◌, ◌*◌, ◌<◌, ◌≡◌, refl, arith, some, List, [], ◌∷◌, replicate, take, length,
}
use os_workbench.Tty.Screen.{tty_write, tty_init}
use os_workbench.Tty.Cook.{Lines, tty_cook, tty_read, got}
use os_workbench.Tty.Line.{pending}
use os_workbench.Tty.Typed.{edited, answer, Cooked, tty_cook-edited}
use os_workbench.Tty.Read.{tty_read-line}
use os_workbench.Tty.Page.{blank, type_bytes}
use os_workbench.Tty.Render.{Tile, tile_of, tty_render, fb_write}
use os_workbench.Tty.Draw.{at_cell}
use os_workbench.Tty.Marks.{tty_write-render}
use os_workbench.Tty.Shows.{Shows}
use os_workbench.Tty.Task.{Terminal, Terminals}
use os_workbench.Tty.Session.{line_of, echoed}
use os_workbench.Tty.Front.{tty_tasks, plain, tty_tasks-read}
use os_workbench.Tty.Refine.{tty_write-Shows, tty_init-Shows}

-- Two lines of three columns; the writing goes on the third line, and back over one byte.
abbrev typed : List ℕ
typed = b'a' ∷ b'b' ∷ 10 ∷ b'c' ∷ b'd' ∷ b'e' ∷ b'f' ∷ 8 ∷ []

tty_write-Shows_example :
    Shows 2 3 0x00ff_ffff 0x0030_0a24
      (tty_write typed (tty_init 24 32))
      (type_bytes 2 3 0x00ff_ffff 0x0030_0a24 typed blank)
tty_write-Shows_example =
    tty_write-Shows typed 2 3 0x00ff_ffff 0x0030_0a24 (tty_init 24 32) blank
      (tty_init-Shows 24 32 (omega arith) (omega arith))

abbrev black : Tile
black = record { texture = 0; fg = 0; bg = 0 }

-- The terminal of display 2.
tty_write-render_example :
    ((r c h : ℕ)
      → r < 2
      → c < 3
      → h < 2
      → at_cell (fb_write 2 (tty_render 2 (tty_write typed (tty_init 24 32))) (λ x y. black)) r c h
        ≡ tile_of (tty_write typed (tty_init 24 32)) (r * 3 + c) h)
    × ((current : ℕ)
        → current ≢ 2
        → fb_write current (tty_render 2 (tty_write typed (tty_init 24 32))) (λ x y. black)
          ≡ (λ x y. black))
unfolding tty_init
tty_write-render_example =
    tty_write-render 2 (λ x y. black) typed (tty_init 24 32) (omega arith)
      (λ r c h a b k e. ground (arith, e))

-- "hi" and its end, and a "b" of the next line, of 1024 places.
abbrev keys : Lines
keys = record {
  queue = record { buf = b'h' ∷ b'i' ∷ 10 ∷ 0 ∷ b'b' ∷ replicate 1019 0; front = 0; rear = 5 };
  cooked = 1;
}

keys-Cooked : Cooked keys
keys-Cooked = record {
  queue_IsValid = record {
    room = refl;
    front_in = omega arith;
    rear_in = omega arith;
    fenced = refl;
  };
  counted = refl;
}

tty_cook-edited_example :
    (u : Lines) × (tty_cook 8 keys ≡ some (answer 8 (pending keys.queue), u))
    × Cooked u
    × (pending u.queue ≡ edited 8 (pending keys.queue))
tty_cook-edited_example = tty_cook-edited 8 keys keys-Cooked (omega arith)

-- The line read is longer than the buffer of two bytes, and its length is what the read returns.
longer : (u : Lines) × (tty_read 1024 2 keys ≡ got 3 (b'h' ∷ b'i' ∷ []) u)
longer =
    let r = tty_read-line 1024 2 keys (omega arith) keys-Cooked (λ e. omega (arith, e)) in
    (r.0, r.1)

-- Four terminals with nothing typed; "a", "x", backspace, "b" and Return at the second.
abbrev fresh_tty : Terminal
fresh_tty = record {
  lines = record { queue = record { buf = replicate 1024 0; front = 0; rear = 0 }; cooked = 0 };
  screen = tty_init 24 32;
}

abbrev front_two : Terminals
front_two = record { tty = λ i. fresh_tty; current = 2 }

abbrev some_keys : List ℕ
some_keys = b'a' ∷ b'x' ∷ 8 ∷ b'b' ∷ []

fresh-Cooked : Cooked fresh_tty.lines
fresh-Cooked = record {
  queue_IsValid = record {
    room = refl;
    front_in = omega arith;
    rear_in = omega arith;
    fenced = refl;
  };
  counted = refl;
}

tty_tasks-read_example :
    (s : Terminals) × (left : Lines) × (tty_tasks (map plain (some_keys ++ (10 ∷ []))) front_two
      ≡ some s)
    × (tty_read 1024 8 (s.tty 2).lines
        ≡ got
            (length (line_of [] some_keys ++ (10 ∷ [])))
            (take 8 (line_of [] some_keys ++ (10 ∷ [])))
            left)
    × (pending left.queue ≡ [])
    × ((s.tty 2).screen ≡ tty_write (echoed [] (some_keys ++ (10 ∷ []))) (tty_init 24 32))
    × ((j : ℕ) → j ≢ 2 → s.tty j ≡ fresh_tty)
tty_tasks-read_example =
    tty_tasks-read some_keys 8 front_two fresh-Cooked refl (omega arith)
      (
        (omega arith, omega arith),
        (
          (omega arith, omega arith),
          ((omega arith, omega arith), ((omega arith, omega arith), tt)),
        ),
      )
      (omega arith)

edited_keys : line_of [] some_keys ≡ b'a' ∷ b'b' ∷ []
unfolding line_of
edited_keys = refl
