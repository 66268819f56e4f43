-- ===== src/Vfs/Became.antt =====
-- The descriptors that a loop over those of one task has changed.
use os_workbench.Base.{
  ℕ, suc, ◌+◌, ◌≤◌, ◌<◌, ◌≡◌, sym, ap, ◌∙◌, ◌≢◌, inl, inr, Option, ◌==◌, update, update_self,
  update_ne, arith, Bool-cases, ==→eq, ==→ne,
}
use os_workbench.Vfs.{set_fd}
use os_workbench.Vfs.Inv.{}

-- The descriptors of `t` from `i` on, `n` of them, have become those of `v`, and no others changed.
abbrev pub Became : ℕ → ℕ → ℕ → (ℕ → Option ℕ) → (ℕ → ℕ → Option ℕ) → (ℕ → ℕ → Option ℕ) → Type 0
Became n i t v fd fd' =
    ((u : ℕ) → u ≢ t → fd' u ≡ fd u)
    × ((k : ℕ) → i ≤ k → k < i + n → fd' t k ≡ v k)
    × ((k : ℕ) → k < i → fd' t k ≡ fd t k)

pub Became-next :
    (n i t : ℕ) (v : ℕ → Option ℕ) (x : Option ℕ) (fd fd' : ℕ → ℕ → Option ℕ)
    → x ≡ v i
    → Became n (i + 1) t v (set_fd fd t i x) fd'
    → Became (suc n) i t v fd fd'
Became-next n i t v x fd fd' e b = (
  λ u ne. b.0 u ne ∙ update_ne fd t u (update (fd t) i x) ne,
  λ k l m. elim (Bool-cases (k == i)) [
    | inl y ↦
        let q = ==→eq k i y in
        ap (fd' t) q
        ∙ b.2 i (omega arith)
        ∙ ap (λ g. g i) (update_self fd t (update (fd t) i x))
        ∙ update_self (fd t) i x
        ∙ e
        ∙ sym (ap v q)
    | inr y ↦ b.1 k (grind (arith, ==→ne k i y)) (omega arith)
  ],
  λ k l.
      b.2 k (omega arith)
      ∙ ap (λ g. g k) (update_self fd t (update (fd t) i x))
      ∙ update_ne (fd t) i k x (λ q. absurd (omega arith)),
)

-- A descriptor that is already so is passed over.
pub Became-skip :
    (n i t : ℕ) (v : ℕ → Option ℕ) (fd fd' : ℕ → ℕ → Option ℕ)
    → fd t i ≡ v i
    → Became n (i + 1) t v fd fd'
    → Became (suc n) i t v fd fd'
Became-skip n i t v fd fd' e b = (
  b.0,
  λ k l m. elim (Bool-cases (k == i)) [
    | inl y ↦ let q = ==→eq k i y in ap (fd' t) q ∙ b.2 i (omega arith) ∙ e ∙ sym (ap v q)
    | inr y ↦ b.1 k (grind (arith, ==→ne k i y)) (omega arith)
  ],
  λ k l. b.2 k (omega arith),
)
