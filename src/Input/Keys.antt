-- ===== src/Input/Keys.antt =====
-- The keyboard of input.c over any sequence of codes, and the reads of its events.
use os_workbench.Base.{
  ℕ, suc, false, ◌+◌, ◌-◌, ◌%◌, ◌≤◌, ◌<◌, ◌≡◌, refl, ◌≢◌, none, some, List, [], ◌∷◌, ◌++◌, arith,
  ◌==◌, leb, if◌then◌else◌, length, Bool-cases, inl, inr, ltb, ◌||◌, get_or, length-append, All, ap,
  ◌∙◌, sym,
}
use mathlib.Core.List.{append-nil, append_assoc}
use os_workbench.Input.{Event, Mods, key_down, Input, input_task, got, pop_event, input_read}
use os_workbench.Input.Ring.{events_from, pending, IsValid}
use os_workbench.Input.Keymap.{keymap}
use os_workbench.Input.Typing.{track, strokes}
use os_workbench.Input.Keydown.{keydown-Steps}

-- The modifiers after codes, and the events of the codes.
unfoldable pub tracked : List ℕ → Mods → Mods
tracked [] m = m
tracked (code ∷ s) m = tracked s (track code m)

unfoldable pub struck : List ℕ → Mods → List Event
struck [] m = []
struck (code ∷ s) m = strokes code m ++ struck s (track code m)

length-strokes : (code : ℕ) (m : Mods) → length (strokes code m) ≤ 1
length-strokes code m =
    elim (Bool-cases (ltb code key_down || (get_or keymap (code - key_down) 0 == 0))) [
      | inl e ↦ rw e (omega arith)
      | inr e ↦ rw e (omega arith)
    ]

-- While there is room for an event of each code, any sequence of codes, those that press a key having
-- it among the 256 entries of the tables, goes through without a panic and without a read behind the
-- tables: each modifier is then as its last code left it, the lock turned once for each press, and
-- behind the events that wait are those of the keys with a character, in order, each with the character
-- that the modifiers gave it when its key went down.
pub input_task-struck :
    (s : List ℕ) (k : Input)
    → All (λ code. code < key_down + 256) s
    → IsValid k
    → length (pending k) + length s < 128
    → (k' : Input) × (input_task s k ≡ some k')
      × IsValid k'
      × (k'.mods ≡ tracked s k.mods)
      × (pending k' ≡ pending k ++ struck s k.mods)
unfolding input_task tracked struck
input_task-struck [] k a v h = (k, refl, v, refl, sym (append-nil (pending k)))
input_task-struck (code ∷ s) k a v h =
    let t = keydown-Steps code k a.0 v (omega (arith, h)) in
    let less : length (pending t.0) ≤ length (pending k) + 1 = omega (
      arith,
      ap (length {A = Event}) t.4,
      length-append (pending k) (strokes code k.mods),
      length-strokes code k.mods,
    ) in
    let r = input_task-struck s t.0 a.1 t.2 (omega (arith, h, less)) in
    (
      r.0,
      rw (t.1, input_task) (r.1),
      r.2,
      r.3 ∙ ap (tracked s) t.3,
      r.4
          ∙ (λ i. t.4 i ++ struck s (t.3 i))
          ∙ append_assoc (pending k) (strokes code k.mods) (struck s (track code k.mods)),
    )

-- A read with an event there takes the one that has waited longest. It copies the event if there is
-- room for its four bytes; else it returns 0, and the event is gone.
pub input_read-first :
    (count : ℕ) (k : Input)
    → IsValid k
    → k.event_sem ≢ 0
    → (ev : Event) × (k' : Input) × (pending k ≡ ev ∷ pending k')
      × IsValid k'
      × (input_read count k ≡ (if leb 4 count then got 4 (some ev) k' else got 0 none k'))
unfolding input_read pop_event
input_read-first count k v n =
    let d = (k.rear + 128 - k.front) % 128 in
    let waiting : (k.event_sem == 0) ≡ false = ground (arith, n) in
    let pos : d ≢ 0 = λ e. n (v.counted ∙ e) in
    let filled : (k.rear == k.front) ≡ false = ground (arith, pos, v.front_in, v.rear_in) in
    let front = (k.front + 1) % 128 in
    let shorter : (k.rear + 128 - front) % 128 ≡ d - 1 =
      omega (arith, pos, v.front_in, v.rear_in) in
    let one : d ≡ suc (d - 1) = omega (arith, pos) in
    (
      k.events k.front,
      record k { front = front; event_sem = k.event_sem - 1 },
      ap (events_from k.events k.front) one
          ∙ ap (λ n. k.events k.front ∷ events_from k.events front n) (sym shorter),
      record {
        front_in = omega arith;
        rear_in = v.rear_in;
        counted = omega (arith, v.counted, shorter);
      },
      rw (waiting, filled) refl,
    )
