-- ===== src/Core/Pulay/Overlap.antt =====
-- jdftx/core/Pulay.h: the overlap matrix belongs to the residuals that are kept.
use python_jdftx.Common.{
  ℕ, zero, suc, ◌-◌, ◌≤◌, ◌<◌, ◌≡◌, refl, sym, ap, subst, ◌∙◌, false, ◌||◌, List, [], ◌∷◌, ◌++◌,
  some, if◌then◌else◌, length, drop, get_elem?, leb, ltb, ◌==◌, arith, Bool-cases, inl, inr,
  length-append,
}
use python_jdftx.Core.Number.{Double, Space}
use python_jdftx.Core.Pulay.{
  PulayParams, Matrix, Mixed, Past, Cycle, remove_oldest, shifted, update_overlap, run_cycle,
  check_cycle, mix, last_residual, iterate,
}

module _ {R V X : Type 0} ⦃r : Double R⦄ ⦃v : Space R V⦄ (obj : Mixed R V X)
    (p : PulayParams R) where
  -- The entries for two residuals are the product of the earlier one with the metric applied to
  -- the later one, in both orders.
  unfoldable pub IsOverlap : List V → Matrix R → Type 0
  IsOverlap residuals overlap =
      (i j : ℕ) (a b : V)
      → i ≤ j
      → get_elem? residuals i ≡ some a
      → get_elem? residuals j ≡ some b
      → (overlap i j ≡ v.dot a (obj.apply_metric b)) × (overlap j i ≡ v.dot a (obj.apply_metric b))

  -- The history is full at most, has a variable for each residual, and their overlaps.
  pub record IsKept (s : Past R V) : Type 0 where
    pub paired : length s.variables ≡ length s.residuals
    pub bounded : length s.residuals ≤ p.history
    pub overlaps : IsOverlap s.residuals s.overlap

  get_elem?-length : (xs : List V) (i : ℕ) (a : V) → get_elem? xs i ≡ some a → i < length xs
  get_elem?-length [] i a h = cc
  get_elem?-length (x ∷ xs) zero a h = omega arith
  get_elem?-length (x ∷ xs) (suc i) a h = omega (arith, get_elem?-length xs i a h)

  -- Reading a list with one value more at its end.
  get_elem?-snoc :
      (xs : List V) (y : V) (i : ℕ)
      → get_elem? (xs ++ (y ∷ [])) i ≡ (if i == length xs then some y else get_elem? xs i)
  get_elem?-snoc [] y zero = ground arith
  get_elem?-snoc [] y (suc i) = ground arith
  get_elem?-snoc (x ∷ xs) y zero = ground arith
  get_elem?-snoc (x ∷ xs) y (suc i) = ground (arith, get_elem?-snoc xs y i)

  update_overlap-IsOverlap :
      (xs : List V) (y : V) (o : Matrix R)
      → IsOverlap xs o
      → IsOverlap (xs ++ (y ∷ [])) (update_overlap obj p (xs ++ (y ∷ [])) y o)
  unfolding update_overlap IsOverlap
  update_overlap-IsOverlap xs y o h i j a b le ha hb =
      let long = length-append xs (y ∷ []) in
      ground (
        arith,
        get_elem?-snoc xs y i,
        get_elem?-snoc xs y j,
        get_elem?-length xs i a,
        get_elem?-length xs j b,
        h i j a b le,
      )

  shifted-IsOverlap :
      (xs : List V) (o : Matrix R)
      → IsOverlap xs o
      → IsOverlap (drop 1 xs) (if ltb 1 (length xs) then shifted obj p (length xs) o else o)
  unfolding shifted IsOverlap
  shifted-IsOverlap [] o h i j a b le ha hb = cc
  shifted-IsOverlap (x ∷ xs) o h i j a b le ha hb =
      let early = get_elem?-length xs i a ha in
      let late = get_elem?-length xs j b hb in
      let entry = h (suc i) (suc j) a b (omega arith) ha hb in
      elim (Bool-cases (ltb 1 (suc (length xs)))) [
        | inl several ↦ ground arith
        | inr single ↦ absurd (ground arith)
      ]

  length-drop_one : (xs : List V) → length (drop 1 xs) ≡ length xs - 1
  length-drop_one [] = omega arith
  length-drop_one (x ∷ xs) = omega arith

  -- With a history of one entry or more there is room for another behind it.
  remove_oldest-IsKept :
      (s : Past R V)
      → 1 ≤ p.history
      → IsKept s
      → IsKept (remove_oldest obj p s)
        × (suc (length (remove_oldest obj p s).residuals) ≤ p.history)
  unfolding remove_oldest
  remove_oldest-IsKept s space kept = elim (Bool-cases (leb p.history (length s.residuals))) [
    | inl full ↦
        let vs = length-drop_one s.variables in
        let rs = length-drop_one s.residuals in
        rw (full, remove_oldest)
          ((
            record {
              paired = omega (arith, kept.paired);
              bounded = omega (arith, kept.bounded);
              overlaps = shifted-IsOverlap s.residuals s.overlap kept.overlaps;
            },
            ground (arith, kept.bounded),
          ))
    | inr room ↦ rw (room, remove_oldest) ((kept, ground arith))
  ]

  -- Between cycle and mixing the last residual is not part of the overlaps yet.
  record IsAhead (s : Past R V) (xs : List V) (y : V) : Type 0 where
    joined : s.residuals ≡ xs ++ (y ∷ [])
    paired : length s.variables ≡ length s.residuals
    bounded : length s.residuals ≤ p.history
    overlaps : IsOverlap xs s.overlap

  last_residual-append : (d : V) (xs : List V) (y : V) → last_residual obj p d (xs ++ (y ∷ [])) ≡ y
  unfolding last_residual
  last_residual-append d [] y = refl
  last_residual-append d (x ∷ xs) y = last_residual-append x xs y

  run_cycle-IsAhead :
      (c : Cycle R V X)
      → 1 ≤ p.history
      → IsKept c.past
      → (xs : List V) × (y : V) × IsAhead ((run_cycle obj p c).0.past) xs y
  unfolding run_cycle
  run_cycle-IsAhead c space kept =
      let (old, fits) = remove_oldest-IsKept c.past space kept in
      let s = remove_oldest obj p c.past in
      let before = obj.get_variable c.system in
      let out = obj.cycle c.energy_change c.system in
      let y = v.axpy (r.neg (r.lit 1)) before (obj.get_variable out.2) in
      let vs = length-append s.variables (before ∷ []) in
      let rs = length-append s.residuals (y ∷ []) in
      (
        s.residuals,
        y,
        record {
          joined = refl;
          paired = omega (arith, old.paired);
          bounded = omega arith;
          overlaps = old.overlaps;
        },
      )

  check_cycle-past :
      (norm : R) (extra : List R) (c : Cycle R V X)
      → (check_cycle obj p norm extra c).1.past ≡ c.past
  unfolding check_cycle
  check_cycle-past norm extra c = ground arith

  mix-IsKept :
      (c : Cycle R V X) (xs : List V) (y : V)
      → IsAhead c.past xs y
      → IsKept (mix obj p (last_residual obj p obj.nothing c.past.residuals) c).past
  unfolding mix
  mix-IsKept c xs y ahead =
      let last : last_residual obj p obj.nothing c.past.residuals ≡ y =
        ap (last_residual obj p obj.nothing) ahead.joined ∙ last_residual-append obj.nothing xs y in
      record {
        paired = ahead.paired;
        bounded = ahead.bounded;
        overlaps =
            rw (last, ahead.joined) (update_overlap-IsOverlap xs y c.past.overlap ahead.overlaps);
      }

  -- With room for one residual or more, a cycle that does not end the loop keeps a history that
  -- is full at most, a variable for each residual, and the overlaps of all pairs of residuals.
  pub iterate-IsKept :
      (iter : ℕ) (c : Cycle R V X)
      → 1 ≤ p.history
      → IsKept c.past
      → (iterate obj p iter c).0 ≡ false
      → IsKept (iterate obj p iter c).1.past
  unfolding iterate
  iterate-IsKept iter c space kept on =
      let ran = run_cycle obj p c in
      let checked = check_cycle obj p ran.1 ran.2 ran.0 in
      let (xs, y, ahead) = run_cycle-IsAhead c space kept in
      let same = check_cycle-past ran.1 ran.2 ran.0 in
      elim (Bool-cases (checked.0 || obj.kill iter)) [
        | inl over ↦ absurd (ground arith)
        | inr more ↦
            rw (more, iterate)
              (mix-IsKept checked.1 xs y
                (subst (λ (s : Past R V). IsAhead s xs y) (sym same) ahead))
      ]
