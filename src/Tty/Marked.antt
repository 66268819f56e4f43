-- ===== src/Tty/Marked.antt =====
-- The marks that tty.c makes, and a screen of which enough is marked.
use os_workbench.Base.{
  ℕ, ◌+◌, ◌*◌, ◌≤◌, ◌<◌, ◌≡◌, ◌≢◌, Bool, true, false, arith, ◌==◌, ltb, update, ap, ◌∙◌, sym,
  Bool-cases, inl, inr, ==→ne, ltb→lt, ltb→le,
}
use mathlib.Core.Bool.{true≢false}
use os_workbench.Tty.Screen.{Screen, size, fill, tty_upd_scrollup, tty_mark_all, settle}
use os_workbench.Tty.Shows.{fill-in, fill-out, fill-past}

-- The marks that `fill` leaves out are as they were, and outside what it fills.
pub fill-false :
    (p n : ℕ) (m : ℕ → Bool) (i : ℕ)
    → fill p n true m i ≡ false
    → (m i ≡ false) × (p ≤ i → i < p + n → ⊥)
fill-false p n m i h = elim (Bool-cases (ltb i p)) [
  | inl e ↦ (sym (fill-out p n true m i (ltb→lt i p e)) ∙ h, λ a b. omega (arith, ltb→lt i p e))
  | inr e ↦ elim (Bool-cases (ltb i (p + n))) [
    | inl f ↦
        let bad = sym (fill-in p n true m i (ltb→le i p e) (ltb→lt i (p + n) f)) ∙ h in
        absurd (true≢false bad)
    | inr f ↦ (
      sym (fill-past p n true m i (ltb→le i (p + n) f)) ∙ h,
      λ a b. omega (arith, ltb→le i (p + n) f),
    )
  ]
]

-- The cells of `u` that are not marked were not marked in `t`, hold what they held, and neither cursor is
-- in them.
pub record Marked (t u : Screen) : Type 0 where
  pub same_lines : u.lines ≡ t.lines
  pub same_columns : u.columns ≡ t.columns
  pub still :
      (i : ℕ)
      → i < size t
      → u.dirty i ≡ false
      → (t.dirty i ≡ false) × (u.buf i ≡ t.buf i) × (i ≢ t.cursor) × (i ≢ u.cursor)

pub mark-false :
    (a : ℕ) (m : ℕ → Bool) (i : ℕ) → update m a true i ≡ false → (m i ≡ false) × (i ≢ a)
mark-false a m i h = elim (Bool-cases (i == a)) [
  | inl e ↦ absurd (true≢false (rw e at h))
  | inr e ↦ (rw e at h, ==→ne i a e)
]

-- When the screen goes up, every cell is marked.
pub settled-Marked :
    (t u : Screen) (mark : Screen → Screen)
    → u.lines ≡ t.lines
    → u.columns ≡ t.columns
    → Marked t (mark u)
    → Marked t (settle mark u)
unfolding settle tty_mark_all tty_upd_scrollup
settled-Marked t u mark a b h = elim (Bool-cases (u.cursor == size u)) [
  | inl e ↦ rw e (record {
    same_lines = a;
    same_columns = b;
    still = λ i k f. absurd (
        (fill-false 0 (size u) (tty_upd_scrollup u).dirty i f).1 (omega arith)
          (omega (arith, k, ap (λ n. n * u.lines) b, ap (λ n. t.columns * n) a)));
  })
  | inr e ↦ rw e h
]
