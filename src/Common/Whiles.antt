-- ===== src/Common/Whiles.antt =====
-- Loops that run while a condition holds.
use python_jdftx.Common.{
  ℕ, zero, suc, ◌<◌, ◌≡◌, inl, inr, refl, Bool, true, false, Option, none, some, if◌then◌else◌,
  arith, Bool-cases,
}

-- `while(goes(a)) a = next(a);`, `none` without enough fuel.
unfoldable pub while_from : {A : Type 0} → (A → Bool) → (A → A) → (fuel : ℕ) → A → Option A
while_from goes next zero a = none
while_from goes next (suc fuel) a =
    let rest = while_from goes next fuel (next a) in if goes a then rest else some a

module _ {A : Type 0} (goes : A → Bool) (next : A → A) where
  unfoldable pub repeated : ℕ → A → A
  repeated zero a = a
  repeated (suc k) a = repeated k (next a)

  -- The first round at which the condition fails.
  pub record IsFirst (a : A) (k : ℕ) : Type 0 where
    pub before : (j : ℕ) → j < k → goes (repeated j a) ≡ true
    pub at : goes (repeated k a) ≡ false

  pub while_from-IsFirst :
      (k fuel : ℕ) (a : A)
      → IsFirst a k
      → k < fuel
      → while_from goes next fuel a ≡ some (repeated k a)
  unfolding while_from repeated
  while_from-IsFirst k zero a f h = absurd (omega arith)
  while_from-IsFirst zero (suc fuel) a f h = rw f.at refl
  while_from-IsFirst (suc k) (suc fuel) a f h =
      let now = f.before 0 (omega arith) in
      let later =
        while_from-IsFirst k fuel (next a)
          (record { before = λ j l. f.before (suc j) (omega arith); at = f.at }) (omega arith) in
      rw now later

  pub while_from-endless :
      ((a : A) → goes a ≡ true) → (fuel : ℕ) (a : A) → while_from goes next fuel a ≡ none
  unfolding while_from
  while_from-endless h zero a = refl
  while_from-endless h (suc fuel) a = rw (h a) (while_from-endless h fuel (next a))

  -- A loop that keeps `P` and lowers a measure ends where the condition fails.
  pub while_from-ends :
      (P : A → Type 0) (size : A → ℕ) (fuel : ℕ) (a : A)
      → ((b : A) → P b → P (next b))
      → ((b : A) → goes b ≡ true → size (next b) < size b)
      → P a
      → size a < fuel
      → (b : A) × (while_from goes next fuel a ≡ some b) × (goes b ≡ false) × P b
  unfolding while_from
  while_from-ends P size zero a keep less p h = absurd (omega arith)
  while_from-ends P size (suc fuel) a keep less p h = elim (Bool-cases (goes a)) [
    | inl t ↦
        let shorter = less a t in
        rw t (while_from-ends P size fuel (next a) keep less (keep a p) (omega arith))
    | inr f ↦ (a, rw f refl, f, p)
  ]
