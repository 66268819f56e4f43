-- ===== src/Tty/Front.antt =====
-- What is typed goes to the terminal in front, and to no other.
use os_workbench.Base.{
  ℕ, ◌%◌, ◌≤◌, ◌<◌, ◌≡◌, refl, ◌≢◌, true, false, Option, none, some, List, [], ◌∷◌, ◌++◌, arith,
  ◌==◌, map, take, length, All, ap, ◌∙◌, Option-cases, inl, inr, update,
}
use mathlib.Core.Option.{some-injective}
use native.Mathlib.Nat.{mod-eq_of_lt}
use os_workbench.Input.{Event}
use os_workbench.Tty.Screen.{tty_write}
use os_workbench.Tty.Cook.{Lines, tty_read, got}
use os_workbench.Tty.Line.{pending}
use os_workbench.Tty.Typed.{Cooked}
use os_workbench.Tty.Task.{Terminal, Terminals, task_byte, tty_task}
use os_workbench.Tty.Session.{task_bytes, line_of, echoed, Open, task_bytes-read}

unfoldable pub tty_tasks : List Event → Terminals → Option Terminals
tty_tasks [] s = some s
tty_tasks (ev ∷ evs) s = elim (tty_task ev s) [ none ↦ none | some s' ↦ tty_tasks evs s' ]

-- The event of a key with neither Ctrl nor Alt.
abbrev pub plain : ℕ → Event
plain ch = record { ctrl = false; alt = false; ch = ch }

-- The state with another terminal in front, and the others as they were.
record Front (s : Terminals) (t : Terminal) (s' : Terminals) : Type 0 where
  pub same_front : s'.current ≡ s.current
  pub in_front : s'.tty s.current ≡ t
  pub others : (j : ℕ) → j ≢ s.current → s'.tty j ≡ s.tty j

tty_task-plain :
    (ch : ℕ) (s : Terminals) (t : Terminal)
    → ch < 256
    → task_byte ch (s.tty s.current) ≡ some t
    → tty_task (plain ch) s ≡ some (record s { tty = update s.tty s.current t })
unfolding tty_task
tty_task-plain ch s t h e =
    let m : ch % 256 ≡ ch = mod-eq_of_lt h in
    let q : task_byte (ch % 256) (s.tty s.current) ≡ some t =
      ap (λ c. task_byte c (s.tty s.current)) m ∙ e in
    rw (q, tty_task) refl

tty_tasks-plain :
    (l : List ℕ) (s : Terminals) (t : Terminal)
    → All (λ ch. ch < 256) l
    → task_bytes l (s.tty s.current) ≡ some t
    → (s' : Terminals) × (tty_tasks (map plain l) s ≡ some s') × Front s t s'
unfolding tty_tasks task_bytes
tty_tasks-plain [] s t a e = (
  s,
  refl,
  record {
    same_front = refl;
    in_front = some-injective (s.tty s.current) t e;
    others = λ j n. refl;
  },
)
tty_tasks-plain (ch ∷ l) s t a e = elim (Option-cases (task_byte ch (s.tty s.current))) [
  | inl n ↦ let q : ◌≡◌ {A = Option Terminal} none (some t) = rw (n, task_bytes) at e in (cc)
  | inr (t', n) ↦
      let q : task_bytes l t' ≡ some t = rw (n, task_bytes) at e in
      let s1 : Terminals = record s { tty = update s.tty s.current t' } in
      let here : (s.current == s.current) ≡ true = ground arith in
      let front : s1.tty s.current ≡ t' = rw here refl in
      let r = tty_tasks-plain l s1 t a.1 (ap (task_bytes l) front ∙ q) in
      (
        r.0,
        rw (tty_task-plain ch s t' a.0 n, tty_tasks) (r.1),
        record {
          same_front = r.2.same_front;
          in_front = r.2.in_front;
          others = λ j n.
              let e : (j == s.current) ≡ false = ground (arith, n) in r.2.others j n ∙ (rw e refl);
        },
      )
]

All-snoc : (l : List ℕ) → All (λ ch. ch < 256) l → All (λ ch. ch < 256) (l ++ (10 ∷ []))
All-snoc [] a = (omega arith, tt)
All-snoc (x ∷ l) a = (a.0, All-snoc l a.1)

-- The queue of the terminal in front is valid, its lines are counted, and it is empty. Then come keys for
-- no more than 510 bytes below 256, backspaces among them but no newline and no 0, and then the Return
-- key, each with neither Ctrl nor Alt. None panics; a read of that terminal then returns the line as it
-- was edited, with its newline, cut to the room of the buffer, and leaves its queue empty; its screen
-- has been written what is to be shown; and the other terminals are as they were.
pub tty_tasks-read :
    (l : List ℕ) (count : ℕ) (s : Terminals)
    → Cooked (s.tty s.current).lines
    → pending (s.tty s.current).lines.queue ≡ []
    → All (λ ch. ch < 256) l
    → Open l
    → length l ≤ 510
    → (s' : Terminals) × (left : Lines) × (tty_tasks (map plain (l ++ (10 ∷ []))) s ≡ some s')
      × (tty_read 1024 count (s'.tty s.current).lines
          ≡ got (length (line_of [] l ++ (10 ∷ []))) (take count (line_of [] l ++ (10 ∷ []))) left)
      × (pending left.queue ≡ [])
      × ((s'.tty s.current).screen
          ≡ tty_write (echoed [] (l ++ (10 ∷ []))) (s.tty s.current).screen)
      × ((j : ℕ) → j ≢ s.current → s'.tty j ≡ s.tty j)
tty_tasks-read l count s v e a o h =
    let r = task_bytes-read l count (s.tty s.current) v e o h in
    let f = tty_tasks-plain (l ++ (10 ∷ [])) s r.0 (All-snoc l a) r.2 in
    let there = f.2.in_front in
    (
      f.0,
      r.1,
      f.1,
      ap (λ (t : Terminal). tty_read 1024 count t.lines) there ∙ r.3,
      r.5,
      ap (λ (t : Terminal). t.screen) there ∙ r.6,
      f.2.others,
    )
