-- ===== src/Electronic/Folding.antt =====
-- jdftx/electronic/ElecInfo.cpp, `kpointsFold`: the mesh made of the k-points of the input. `fmod`
-- is an argument; the product of the folding fits into int. Only the output is left out.
use python_jdftx.Common.{
  ℕ, zero, suc, ◌+◌, ◌*◌, ◌^◌, ◌≡◌, refl, ap, subst, ◌∙◌, sym, Bool, true, false, List, [], ◌∷◌,
  ◌++◌, length, length-append, All, Option, some, none, if◌then◌else◌, arith,
}
use python_jdftx.Core.Number.{Double, ◌⊕◌, ◌⊖◌, ◌⊘◌, ◌≺◌}
use python_jdftx.Core.Grid.{Vector3}
use python_jdftx.Electronic.Kmesh.{QuantumNumber}
use python_jdftx.Electronic.Kmesh.Weights.{IsExactSum, total, total-append}

-- A loop from `i` on that appends what `f` gives.
unfoldable pub each : {A : Type 0} → (count i : ℕ) (f : ℕ → List A) → List A
each zero i f = []
each (suc count) i f = f i ++ each count (suc i) f

abbrev pub Point : Type 0 → Type 0
Point R = QuantumNumber (Vector3 R) R

abbrev pub n_fold : Vector3 ℕ → ℕ
n_fold kfold = kfold.x * kfold.y * kfold.z

module _ {R : Type 0} ⦃r : Double R⦄ where
  unfoldable pub fmod_positive : (fmod : R → R → R) → R → R → R
  fmod_positive fmod x y = let ret = fmod x y in if ret ≺ r.lit 0 then ret ⊕ r.fabs y else ret

  -- "reduce to centered unit interval".
  unfoldable pub fold_coordinate : R → (i fold : ℕ) → R
  fold_coordinate k i fold =
      let folded = (k ⊕ r.lit i) ⊘ r.lit fold in
      if (r.lit 1 ⊘ r.lit 2) ≺ folded then folded ⊖ r.lit 1 else folded

  unfoldable pub regularize : (fmod : R → R → R) → Point R → Point R
  regularize fmod q = record q {
    k = record {
      x = fmod_positive fmod q.k.x (r.lit 1);
      y = fmod_positive fmod q.k.y (r.lit 1);
      z = fmod_positive fmod q.k.z (r.lit 1);
    };
  }

  unfoldable pub sum_weights : R → List (Point R) → R
  sum_weights w_sum [] = w_sum
  sum_weights w_sum (q ∷ qs) = sum_weights (w_sum ⊕ q.weight) qs

  unfoldable pub is_normalized : List (Point R) → Bool
  is_normalized qnums =
      if (r.lit 1 ⊘ r.lit (10 ^ 12)) ≺ r.fabs (sum_weights (r.lit 0) qnums ⊖ r.lit 1)
      then false
      else true

  unfoldable pub folded_point : Vector3 ℕ → Point R → (a b c : ℕ) → Point R
  folded_point kfold q a b c = record q {
    k = record {
      x = fold_coordinate q.k.x a kfold.x;
      y = fold_coordinate q.k.y b kfold.y;
      z = fold_coordinate q.k.z c kfold.z;
    };
    weight = q.weight ⊘ r.lit (n_fold kfold);
  }

  unfoldable pub fold_point : Vector3 ℕ → Point R → List (Point R)
  fold_point kfold q =
      each kfold.x 0
        (λ a. each kfold.y 0 (λ b. each kfold.z 0 (λ c. folded_point kfold q a b c ∷ [])))

  unfoldable pub fold_points : (fmod : R → R → R) → Vector3 ℕ → List (Point R) → List (Point R)
  fold_points fmod kfold [] = []
  fold_points fmod kfold (q ∷ qs) =
      fold_point kfold (regularize fmod q) ++ fold_points fmod kfold qs

  -- `none` is "Specified kpoint weights do not add to 1".
  unfoldable pub kpoints_fold :
      (fmod : R → R → R) → Vector3 ℕ → List (Point R) → Option (List (Point R))
  kpoints_fold fmod kfold qnums =
      if is_normalized qnums then some (fold_points fmod kfold qnums) else none

  -- The sum of `n` times the same number.
  unfoldable pub times : ℕ → R → R
  times zero w = r.lit 0
  times (suc n) w = times n w ⊕ w

  -- The sum of as many `n`-th parts of the weight is the weight.
  unfoldable pub IsDivisible : ℕ → Point R → Type 0
  IsDivisible n q = times n (q.weight ⊘ r.lit n) ≡ q.weight

  -- `count` points of the weight `w`.
  record IsUniform (w : R) (count : ℕ) (qs : List (Point R)) : Type 0 where
    size : length qs ≡ count
    weighs : total qs ≡ times count w

  pub record IsFolding (fmod : R → R → R) (kfold : Vector3 ℕ) (qnums : List (Point R))
      : Type 0 where
    pub folded : List (Point R)
    pub made : kpoints_fold fmod kfold qnums ≡ some folded
    pub size : length folded ≡ length qnums * n_fold kfold
    pub conserved : total folded ≡ total qnums

  module _ (laws : IsExactSum R) where
    zero_add : (a : R) → r.lit 0 ⊕ a ≡ a
    zero_add a = laws.add_comm (r.lit 0) a ∙ laws.add_zero a

    times_add : (m n : ℕ) (w : R) → times (m + n) w ≡ times n w ⊕ times m w
    unfolding times
    times_add zero n w =
        let same : 0 + n ≡ n = omega arith in
        ap (λ k. times k w) same ∙ sym (laws.add_zero (times n w))
    times_add (suc m) n w =
        let same : suc m + n ≡ suc (m + n) = omega arith in
        ap (λ k. times k w) same
        ∙ ap (λ a. a ⊕ w) (times_add m n w)
        ∙ laws.add_assoc (times n w) (times m w) w

    append-IsUniform :
        (w : R) (m n : ℕ) (xs ys : List (Point R))
        → IsUniform w m xs
        → IsUniform w n ys
        → IsUniform w (m + n) (xs ++ ys)
    append-IsUniform w m n xs ys a b = record {
      size = omega (arith, length-append xs ys, a.size, b.size);
      weighs =
          total-append laws xs ys
          ∙ ap (λ s. s ⊕ total xs) b.weighs
          ∙ ap (λ s. times n w ⊕ s) a.weighs
          ∙ sym (times_add m n w);
    }

    each-IsUniform :
        (w : R) (m count i : ℕ) (f : ℕ → List (Point R))
        → ((j : ℕ) → IsUniform w m (f j))
        → IsUniform w (count * m) (each count i f)
    unfolding each times total
    each-IsUniform w m zero i f h =
        let nothing : 0 ≡ 0 * m = omega arith in
        record { size = nothing; weighs = ap (λ k. times k w) nothing }
    each-IsUniform w m (suc count) i f h =
        let both =
          append-IsUniform w m (count * m) (f i) (each count (suc i) f) (h i)
            (each-IsUniform w m count (suc i) f h) in
        let step : m + count * m ≡ suc count * m = omega arith in
        subst (λ k. IsUniform w k (f i ++ each count (suc i) f)) step both

    fold_point-IsUniform :
        (kfold : Vector3 ℕ) (q : Point R)
        → IsUniform (q.weight ⊘ r.lit (n_fold kfold)) (n_fold kfold) (fold_point kfold q)
    unfolding fold_point folded_point total times
    fold_point-IsUniform kfold q =
        let w = q.weight ⊘ r.lit (n_fold kfold) in
        let points =
          each-IsUniform w (kfold.y * (kfold.z * 1)) kfold.x 0
            (λ a. each kfold.y 0 (λ b. each kfold.z 0 (λ c. folded_point kfold q a b c ∷ [])))
            (λ a.
              each-IsUniform w (kfold.z * 1) kfold.y 0
                (λ b. each kfold.z 0 (λ c. folded_point kfold q a b c ∷ []))
                (λ b.
                  each-IsUniform w 1 kfold.z 0 (λ c. folded_point kfold q a b c ∷ [])
                    (λ c. record { size = omega arith; weighs = refl }))) in
        let count : kfold.x * (kfold.y * (kfold.z * 1)) ≡ n_fold kfold = grind arith in
        subst (λ k. IsUniform w k (fold_point kfold q)) count points

    length-fold_points :
        (fmod : R → R → R) (kfold : Vector3 ℕ) (qnums : List (Point R))
        → length (fold_points fmod kfold qnums) ≡ length qnums * n_fold kfold
    unfolding fold_points
    length-fold_points fmod kfold [] = omega arith
    length-fold_points fmod kfold (q ∷ qs) =
        let here = fold_point-IsUniform kfold (regularize fmod q) in
        let count = n_fold kfold in
        let several : suc (length qs) * count ≡ count + length qs * count = grind arith in
        length-append (fold_point kfold (regularize fmod q)) (fold_points fmod kfold qs)
        ∙ ap (λ k. k + length (fold_points fmod kfold qs)) here.size
        ∙ ap (λ k. count + k) (length-fold_points fmod kfold qs)
        ∙ sym several

    total-fold_points :
        (fmod : R → R → R) (kfold : Vector3 ℕ) (qnums : List (Point R))
        → All (IsDivisible (n_fold kfold)) qnums
        → total (fold_points fmod kfold qnums) ≡ total qnums
    unfolding fold_points total IsDivisible regularize
    total-fold_points fmod kfold [] h = refl
    total-fold_points fmod kfold (q ∷ qs) h =
        let here = fold_point-IsUniform kfold (regularize fmod q) in
        total-append laws (fold_point kfold (regularize fmod q)) (fold_points fmod kfold qs)
        ∙ ap (λ t. t ⊕ total (fold_point kfold (regularize fmod q)))
            (total-fold_points fmod kfold qs h.1)
        ∙ ap (λ t. total qs ⊕ t) (here.weighs ∙ h.0)

    -- k-points whose weights add to 1, up to 1e-12, are folded: there are as many points for each
    -- as the product of the folding, and their weights add up to the same, if sums are exact and
    -- as many parts of a weight make the weight again.
    pub kpoints_fold-IsFolding :
        (fmod : R → R → R) (kfold : Vector3 ℕ) (qnums : List (Point R))
        → is_normalized qnums ≡ true
        → All (IsDivisible (n_fold kfold)) qnums
        → IsFolding fmod kfold qnums
    unfolding kpoints_fold
    kpoints_fold-IsFolding fmod kfold qnums normal h = record {
      folded = fold_points fmod kfold qnums;
      made = rw normal refl;
      size = length-fold_points fmod kfold qnums;
      conserved = total-fold_points fmod kfold qnums h;
    }
