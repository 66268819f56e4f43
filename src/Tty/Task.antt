-- ===== src/Tty/Task.antt =====
-- The terminals together, kernel/src/devices/tty/tty.c: the body of the loop of `tty_task`, which gives
-- the events of the keyboard to the terminal in front. What it prints of Ctrl-c, Ctrl-d and Alt-7, and
-- what it draws on a switch, are left out.
use os_workbench.Base.{
  ℕ, ◌%◌, ◌&&◌, Option, none, some, [], ◌∷◌, ◌==◌, leb, ◌-◌, if◌then◌else◌, update,
}
use os_workbench.Input.{Event}
use os_workbench.Tty.Screen.{Screen, tty_mark_all, tty_write}
use os_workbench.Tty.Cook.{Lines, tty_cook}

-- A `tty_t`.
pub record Terminal : Type 0 where
  pub lines : Lines
  pub screen : Screen

-- `tty1` to `tty4`, and which one `ttydev` is.
pub record Terminals : Type 0 where
  pub tty : ℕ → Terminal
  pub current : ℕ

-- A byte for a terminal: it is shown unless it is a backspace that takes back nothing.
unfoldable pub task_byte : ℕ → Terminal → Option Terminal
task_byte ch t = elim (tty_cook ch t.lines) [
  | none ↦ none
  | some (ret, lines) ↦ some (record {
    lines = lines;
    screen = if ret == 0 then tty_write (ch ∷ []) t.screen else t.screen;
  })
]

-- Ctrl-d: the end of a file, not shown.
unfoldable pub task_eof : Terminal → Option Terminal
task_eof t = elim (tty_cook 0 t.lines) [
  | none ↦ none
  | some (ret, lines) ↦ some (record t { lines = lines })
]

-- Alt and a digit brings another terminal to the front, all of which is then to be drawn.
unfoldable pub task_switch : ℕ → Terminals → Terminals
task_switch ch s =
    let next = if leb b'1' ch && leb ch b'4' then ch - b'0' else s.current in
    if next == s.current then s else record {
      tty = update s.tty next (record (s.tty next) { screen = tty_mark_all (s.tty next).screen });
      current = next;
    }

abbrev put_back : Terminals → Option Terminal → Option Terminals
put_back s none = none
put_back s (some t) = some (record s { tty = update s.tty s.current t })

unfoldable pub tty_task : Event → Terminals → Option Terminals
tty_task ev s =
    let s' = if ev.alt then task_switch ev.ch s else s in
    if ev.ctrl
    then (if ev.ch == b'd' then put_back s' (task_eof (s'.tty s'.current)) else some s')
    else if ev.alt
    then some s'
    else put_back s' (task_byte (ev.ch % 256) (s'.tty s'.current))
