-- ===== src/Vfs/Count.antt =====
-- How many descriptors of the first `n` tasks point at a file, and how a write to one changes that.
use os_workbench.Base.{
  ℕ, zero, suc, ◌+◌, ◌≤◌, ◌<◌, ◌≡◌, refl, sym, ap, ◌∙◌, ◌≢◌, Option, none, some, ◌==◌,
  if◌then◌else◌, update, update_self, update_ne, arith, ==_refl, ==→eq, ==→ne, Bool-cases, inl, inr,
}
use os_workbench.Vfs.{Vfile, fd_num, set_fd}

abbrev pub sum : ℕ → (ℕ → ℕ) → ℕ
sum zero f = 0
sum (suc n) f = sum n f + f n

pub sum_same : (n : ℕ) (f g : ℕ → ℕ) → ((k : ℕ) → k < n → f k ≡ g k) → sum n f ≡ sum n g
sum_same zero f g h = refl
sum_same (suc n) f g h = omega (arith, sum_same n f g (λ k l. h k (omega arith)), h n (omega arith))

-- Two sums that differ in one term.
pub sum_change :
    (n i : ℕ) (f g : ℕ → ℕ) → i < n → ((k : ℕ) → k ≢ i → f k ≡ g k) → sum n f + g i ≡ sum n g + f i
sum_change zero i f g l h = absurd (omega arith)
sum_change (suc n) i f g l h = elim (Bool-cases (n == i)) [
  | inl e ↦ omega (
    arith,
    sum_same n f g (λ k m. h k (λ p. omega (arith, ==→eq n i e))),
    ap f (==→eq n i e),
    ap g (==→eq n i e),
  )
  | inr e ↦ let ne = ==→ne n i e in omega (arith, sum_change n i f g (grind (arith, ne)) h, h n ne)
]

pub sum_term : (n i : ℕ) (f : ℕ → ℕ) → i < n → f i ≤ sum n f
sum_term zero i f l = absurd (omega arith)
sum_term (suc n) i f l = elim (Bool-cases (n == i)) [
  | inl e ↦ omega (arith, ap f (==→eq n i e))
  | inr e ↦ let ne = ==→ne n i e in omega (arith, sum_term n i f (grind (arith, ne)))
]

abbrev pub points : Option ℕ → ℕ → ℕ
points none a = 0
points (some b) a = if b == a then 1 else 0

abbrev pub uses : (ℕ → Option ℕ) → ℕ → ℕ
uses fd a = sum fd_num (λ i. points (fd i) a)

abbrev pub count : ℕ → (ℕ → ℕ → Option ℕ) → ℕ → ℕ
count n fd a = sum n (λ t. uses (fd t) a)

abbrev pub refs : Option Vfile → ℕ
refs none = 0
refs (some file) = file.refcnt

pub uses-set :
    (fd : ℕ → Option ℕ) (i a : ℕ) (v : Option ℕ)
    → i < fd_num
    → uses (update fd i v) a + points (fd i) a ≡ uses fd a + points v a
uses-set fd i a v l =
    sum_change fd_num i (λ k. points (update fd i v k) a) (λ k. points (fd k) a) l
      (λ k ne. ap (λ o. points o a) (update_ne fd i k v ne))
    ∙ ap (λ o. uses fd a + points o a) (update_self fd i v)

-- A write to one descriptor.
pub count-set_fd :
    (n t i a : ℕ) (fd : ℕ → ℕ → Option ℕ) (v : Option ℕ)
    → t < n
    → i < fd_num
    → count n (set_fd fd t i v) a + points (fd t i) a ≡ count n fd a + points v a
count-set_fd n t i a fd v lt li = omega (
  arith,
  sum_change n t (λ k. uses (set_fd fd t i v k) a) (λ k. uses (fd k) a) lt
      (λ k ne. ap (λ o. uses o a) (update_ne fd t k (update (fd t) i v) ne)),
  ap (λ o. uses o a) (update_self fd t (update (fd t) i v)),
  uses-set (fd t) i a v li,
)

-- A task with no files.
pub count-blank :
    (n t a : ℕ) (fd : ℕ → ℕ → Option ℕ)
    → ((i : ℕ) → i < fd_num → fd t i ≡ none)
    → count n (update fd t (λ _. none)) a ≡ count n fd a
count-blank n t a fd h = sum_same n _ _ λ k l. elim (Bool-cases (k == t)) [
  | inl e ↦
      ap (λ o. uses o a) (ap (update fd t (λ _. none)) (==→eq k t e) ∙ update_self fd t (λ _. none))
      ∙ sum_same fd_num _ _
          (λ i m. sym (ap (λ o. points o a) (ap (λ q. fd q i) (==→eq k t e) ∙ h i m)))
  | inr e ↦ ap (λ o. uses o a) (update_ne fd t k (λ _. none) (==→ne k t e))
]

pub count-points :
    (n t i a : ℕ) (fd : ℕ → ℕ → Option ℕ) → t < n → i < fd_num → fd t i ≡ some a → 1 ≤ count n fd a
count-points n t i a fd lt li e = omega (
  arith,
  sum_term n t (λ k. uses (fd k) a) lt,
  sum_term fd_num i (λ k. points (fd t k) a) li,
  ap (λ o. points o a) e,
  ap {B = ℕ} (λ b. if b then 1 else 0) (==_refl a),
)

pub set_fd_self : (fd : ℕ → ℕ → Option ℕ) (t i : ℕ) (v : Option ℕ) → set_fd fd t i v t i ≡ v
set_fd_self fd t i v = ap (λ f. f i) (update_self fd t (update (fd t) i v)) ∙ update_self (fd t) i v

pub set_fd_ne :
    (fd : ℕ → ℕ → Option ℕ) (t i j : ℕ) (v : Option ℕ) → j ≢ i → set_fd fd t i v t j ≡ fd t j
set_fd_ne fd t i j v ne =
    ap (λ f. f j) (update_self fd t (update (fd t) i v)) ∙ update_ne (fd t) i j v ne

pub set_fd_out :
    (fd : ℕ → ℕ → Option ℕ) (t u i : ℕ) (v : Option ℕ) → u ≢ t → set_fd fd t i v u ≡ fd u
set_fd_out fd t u i v ne = update_ne fd t u (update (fd t) i v) ne
