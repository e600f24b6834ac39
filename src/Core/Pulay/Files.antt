-- ===== src/Core/Pulay/Files.antt =====
-- jdftx/core/Pulay.h, `saveState` and `loadState`. A file is the list of the variables and
-- residuals in it, which `readVariable` and `writeVariable` take whole.
use python_jdftx.Common.{
  ℕ, zero, suc, ◌-◌, ◌*◌, ◌/◌, ◌%◌, ◌≡◌, refl, ap, ◌∙◌, true, List, [], ◌∷◌, Option, none, some,
  if◌then◌else◌, length, drop, get_elem?, leb, ◌==◌, arith, dec_lt,
}
use python_jdftx.Core.Number.{Double, Space}
use python_jdftx.Core.Pulay.{PulayParams, Matrix, Mixed, Past}
use python_jdftx.Core.Pulay.Overlap.{IsOverlap, IsKept}

module _ {R V X : Type 0} ⦃r : Double R⦄ ⦃v : Space R V⦄ (obj : Mixed R V X)
    (p : PulayParams R) where
  -- `saveState`: each variable is followed by its residual.
  unfoldable pub save_state : List V → List V → List V
  save_state [] residuals = []
  save_state (x ∷ variables) [] = []
  save_state (x ∷ variables) (y ∷ residuals) = x ∷ y ∷ save_state variables residuals

  unfoldable pub read_pairs : List V → List V × List V
  read_pairs [] = ([], [])
  read_pairs (x ∷ []) = ([], [])
  read_pairs (x ∷ y ∷ file) = let rest = read_pairs file in (x ∷ rest.0, y ∷ rest.1)

  -- "Compute overlaps of loaded history": of the two indices the lower one goes without metric.
  unfoldable pub all_overlaps : List V → Matrix R → Matrix R
  all_overlaps residuals old i j = elim (get_elem? residuals (if leb i j then i else j)) [
    | none ↦ old i j
    | some a ↦ elim (get_elem? residuals (if leb i j then j else i)) [
      | none ↦ old i j
      | some b ↦ v.dot a (obj.apply_metric b)
    ]
  ]

  -- `loadState`: none where the size of the file is odd, for which the code calls `die`. Of a file
  -- longer than the history the last entries are read.
  unfoldable pub load_state : List V → Past R V → Option (Past R V)
  load_state file s =
      let n = length file / 2 in
      let pairs = read_pairs (drop ((n - p.history) * 2) file) in
      if length file % 2 == 0
      then some (record {
        variables = pairs.0;
        residuals = pairs.1;
        overlap = all_overlaps pairs.1 s.overlap;
      })
      else none

  length-save_state :
      (xs ys : List V) → length xs ≡ length ys → length (save_state xs ys) ≡ length xs * 2
  unfolding save_state
  length-save_state [] ys h = omega arith
  length-save_state (x ∷ xs) [] h = absurd (omega arith)
  length-save_state (x ∷ xs) (y ∷ ys) h = omega (arith, length-save_state xs ys (omega arith))

  drop-save_state :
      (k : ℕ) (xs ys : List V)
      → length xs ≡ length ys
      → drop (k * 2) (save_state xs ys) ≡ save_state (drop k xs) (drop k ys)
  unfolding save_state
  drop-save_state zero xs ys h = refl
  drop-save_state (suc k) [] ys h =
      let two : suc k * 2 ≡ suc (suc (k * 2)) = omega arith in rw two refl
  drop-save_state (suc k) (x ∷ xs) [] h = absurd (omega arith)
  drop-save_state (suc k) (x ∷ xs) (y ∷ ys) h =
      let two : suc k * 2 ≡ suc (suc (k * 2)) = omega arith in
      rw two (drop-save_state k xs ys (omega arith))

  read_pairs-save_state :
      (xs ys : List V) → length xs ≡ length ys → read_pairs (save_state xs ys) ≡ (xs, ys)
  unfolding save_state read_pairs
  read_pairs-save_state [] [] h = refl
  read_pairs-save_state [] (y ∷ ys) h = absurd (omega arith)
  read_pairs-save_state (x ∷ xs) [] h = absurd (omega arith)
  read_pairs-save_state (x ∷ xs) (y ∷ ys) h =
      let rest = read_pairs-save_state xs ys (omega arith) in
      ap (λ (q : List V × List V). (x ∷ q.0, y ∷ q.1)) rest

  length-drop : (k : ℕ) (xs : List V) → length (drop k xs) ≡ length xs - k
  length-drop zero xs = omega arith
  length-drop (suc k) [] = omega arith
  length-drop (suc k) (x ∷ xs) = omega (arith, length-drop k xs)

  all_overlaps-IsOverlap : (ys : List V) (o : Matrix R) → IsOverlap obj p ys (all_overlaps ys o)
  unfolding all_overlaps IsOverlap
  all_overlaps-IsOverlap ys o i j a b le ha hb = elim (dec_lt i j) [
    | yes less ↦ ground arith
    | no more ↦ let same : i ≡ j = omega arith in ground arith
  ]

  -- What saveState writes of as many variables as residuals is loaded again, cut to the entries
  -- that fit into the history, with the overlaps of all pairs of residuals.
  pub load_state-save_state :
      (xs ys : List V) (s : Past R V)
      → length xs ≡ length ys
      → (t : Past R V) × (load_state (save_state xs ys) s ≡ some t)
        × (t.variables ≡ drop (length xs - p.history) xs)
        × (t.residuals ≡ drop (length ys - p.history) ys)
        × IsKept obj p t
  unfolding load_state
  load_state-save_state xs ys s h =
      let long = length-save_state xs ys h in
      let k = length xs - p.history in
      let half : length (save_state xs ys) / 2 ≡ length xs = omega (arith, long) in
      let read : read_pairs
            (drop ((length (save_state xs ys) / 2 - p.history) * 2) (save_state xs ys))
          ≡ (drop k xs, drop k ys) =
        ap (λ (n : ℕ). read_pairs (drop ((n - p.history) * 2) (save_state xs ys))) half
        ∙ (ap read_pairs (drop-save_state k xs ys h)
            ∙ read_pairs-save_state (drop k xs) (drop k ys)
                (omega (arith, length-drop k xs, length-drop k ys))) in
      let even : (length (save_state xs ys) % 2 == 0) ≡ true = ground (arith, long) in
      let t : Past R V = record {
        variables = drop k xs;
        residuals = drop k ys;
        overlap = all_overlaps (drop k ys) s.overlap;
      } in
      (
        t,
        rw (even, read, load_state) refl,
        refl,
        ap (λ (n : ℕ). drop (n - p.history) ys) h,
        record {
          paired = omega (arith, length-drop k xs, length-drop k ys);
          bounded = omega (arith, length-drop k ys);
          overlaps = all_overlaps-IsOverlap (drop k ys) s.overlap;
        },
      )
