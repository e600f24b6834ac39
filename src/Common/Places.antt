-- ===== src/Common/Places.antt =====
-- Entries of lists and their places.
use python_jdftx.Common.Lists.{In, get_elem?, length}
use Prim.Native.Nat.{ℕ, zero, suc, ◌+◌, ◌<◌}
use mathlib.Core.Path.{◌≡◌, refl, sym, ap}
use mathlib.Core.Logic.{◌⊎◌, inl, inr}
use mathlib.Core.List.{List, [], ◌∷◌, ◌++◌}
use mathlib.Core.Option.{some}
use native.Mathlib.Omega.{arith}

module _ {A : Type 0} where
  pub In-append : (a : A) (xs ys : List A) → In a (xs ++ ys) → In a xs ⊎ In a ys
  In-append a [] ys i = inr i
  In-append a (x ∷ xs) ys (inl e) = inl (inl e)
  In-append a (x ∷ xs) ys (inr i) = elim (In-append a xs ys i) [
    | inl k ↦ inl (inr k)
    | inr k ↦ inr k
  ]

  pub append-In : (a : A) (xs ys : List A) → In a xs ⊎ In a ys → In a (xs ++ ys)
  append-In a [] ys (inl i) = absurd i
  append-In a [] ys (inr i) = i
  append-In a (x ∷ xs) ys (inl (inl e)) = inl e
  append-In a (x ∷ xs) ys (inl (inr i)) = inr (append-In a xs ys (inl i))
  append-In a (x ∷ xs) ys (inr i) = inr (append-In a xs ys (inr i))

  pub get_elem?-In : (xs : List A) (i : ℕ) (a : A) → get_elem? xs i ≡ some a → In a xs
  get_elem?-In [] i a e = cc
  get_elem?-In (x ∷ xs) zero a e = inl (let same : x ≡ a = cc in sym same)
  get_elem?-In (x ∷ xs) (suc i) a e = inr (get_elem?-In xs i a e)

  pub In-get_elem? : (xs : List A) (a : A) → In a xs → (i : ℕ) × (get_elem? xs i ≡ some a)
  In-get_elem? [] a i = absurd i
  In-get_elem? (x ∷ xs) a (inl e) = (0, ap some (sym e))
  In-get_elem? (x ∷ xs) a (inr k) = let (i, e) = In-get_elem? xs a k in (suc i, e)

  pub get_elem?-bound : (xs : List A) (i : ℕ) (a : A) → get_elem? xs i ≡ some a → i < length xs
  get_elem?-bound [] i a e = cc
  get_elem?-bound (x ∷ xs) zero a e = omega arith
  get_elem?-bound (x ∷ xs) (suc i) a e = omega (arith, get_elem?-bound xs i a e)

  pub get_elem?-found : (xs : List A) (i : ℕ) → i < length xs → (a : A) × (get_elem? xs i ≡ some a)
  get_elem?-found [] i h = absurd (omega arith)
  get_elem?-found (x ∷ xs) zero h = (x, refl)
  get_elem?-found (x ∷ xs) (suc i) h = get_elem?-found xs i (omega arith)

  -- What stands in a list with one more entry.
  pub get_elem?-last :
      (xs : List A) (a b : A) (i : ℕ)
      → get_elem? (xs ++ (a ∷ [])) i ≡ some b
      → (get_elem? xs i ≡ some b) ⊎ ((i ≡ length xs) × (b ≡ a))
  get_elem?-last [] a b zero e = inr (refl, let same : a ≡ b = cc in sym same)
  get_elem?-last [] a b (suc i) e = cc
  get_elem?-last (x ∷ xs) a b zero e = inl e
  get_elem?-last (x ∷ xs) a b (suc i) e = elim (get_elem?-last xs a b i e) [
    | inl k ↦ inl k
    | inr (k, same) ↦ inr (ap suc k, same)
  ]

  pub get_elem?-append_left :
      (xs ys : List A) (i : ℕ) → i < length xs → get_elem? (xs ++ ys) i ≡ get_elem? xs i
  get_elem?-append_left [] ys i h = absurd (omega arith)
  get_elem?-append_left (x ∷ xs) ys zero h = refl
  get_elem?-append_left (x ∷ xs) ys (suc i) h = get_elem?-append_left xs ys i (omega arith)

  pub get_elem?-append_right :
      (xs ys : List A) (i k : ℕ) → k ≡ length xs + i → get_elem? (xs ++ ys) k ≡ get_elem? ys i
  get_elem?-append_right [] ys i k e = let same : k ≡ i = omega arith in ap (get_elem? ys) same
  get_elem?-append_right (x ∷ xs) ys i zero e = absurd (omega arith)
  get_elem?-append_right (x ∷ xs) ys i (suc k) e = get_elem?-append_right xs ys i k (omega arith)
