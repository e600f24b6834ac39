-- ===== src/Electronic/Matrix/Algebra/Diagonals.antt =====
-- jdftx/electronic/matrix.cpp: products with diagonal matrices, and diagonals.
use python_jdftx.Common.{
  ℕ, ◌<◌, ◌≡◌, ◌≢◌, refl, sym, ap, ◌∙◌, true, false, some, ◌==◌, if◌then◌else◌, arith, Bool-cases,
  inl, inr,
}
use python_jdftx.Common.Loops.{loop, loop_keeps, loop_hits, loop_once}
use python_jdftx.Core.Number.{Double, ◌⊗◌}
use python_jdftx.Core.Complex.{Complex, IsExactArithmetic, of_real, scale, scale-scale}
use python_jdftx.Electronic.Matrix.{Matrix, index, store}
use python_jdftx.Electronic.Matrix.Places.{index_columns, index_rows}
use python_jdftx.Electronic.Matrix.Blocks.{store_keeps, store_hits}
use python_jdftx.Electronic.Matrix.Algebra.{DiagMatrix, diag_times, times_diag, from_diag, diag}

on_diagonal : {C : Type 0} (i : ℕ) (a b : C) → (if i == i then a else b) ≡ a
on_diagonal i a b = let e : (i == i) ≡ true = ground arith in rw e refl

off_diagonal : {C : Type 0} (i j : ℕ) (a b : C) → i ≢ j → (if i == j then a else b) ≡ b
off_diagonal i j a b d = let e : (i == j) ≡ false = ground arith in rw e refl

module _ {R : Type 0} ⦃r : Double R⦄ where
  -- Nested loops that scale each entry of a matrix by a factor of its own, column by column.
  scale_loops :
      (n m : ℕ) (f : ℕ → ℕ → R) (s : ℕ → Complex R) (i j : ℕ)
      → i < n
      → j < m
      → loop m 0
          (λ l. loop n 0 (λ k out. store out (index n k l) (scale (f k l) (out (index n k l)))))
          s
          (index n i j)
        ≡ scale (f i j) (s (index n i j))
  scale_loops n m f s i j hi hj =
      loop_once {S = ℕ → Complex R} (λ s. s x ≡ u) (λ s. s x ≡ scale (f i j) u) column j m 0 m
        (omega arith) (omega arith) (omega arith) (λ l hl d. column_keeps u l d)
        (λ l hl d. column_keeps _ l d)
        (λ s p.
          loop_once {S = ℕ → Complex R} (λ s. s x ≡ u) (λ s. s x ≡ scale (f i j) u) (entry j) i n 0
            n (omega arith) (omega arith) (omega arith)
            (λ k hk d. entry_keeps u k j hk (λ e. d (index_rows n k j i j hk hi e)))
            (λ k hk d. entry_keeps _ k j hk (λ e. d (index_rows n k j i j hk hi e)))
            (λ s p. store_hits x _ x (scale (f i j) (s x)) s refl (ap (scale (f i j)) p)) s p)
        s refl
    where
      x : ℕ
      x = index n i j

      u : (Complex R)
      u = s x

      entry : ℕ → ℕ → (ℕ → Complex R) → ℕ → Complex R
      entry l k out = store out (index n k l) (scale (f k l) (out (index n k l)))

      column : ℕ → (ℕ → Complex R) → ℕ → Complex R
      column l = loop n 0 (entry l)

      entry_keeps :
          (v : (Complex R)) (k l : ℕ)
          → k < n
          → index n k l ≢ x
          → (s : ℕ → Complex R) → s x ≡ v
          → entry l k s x ≡ v
      entry_keeps v k l hk d s p =
          store_keeps x v (index n k l) (scale (f k l) (s (index n k l))) s (λ e. absurd (d e)) p

      column_keeps :
          (v : (Complex R)) (l : ℕ) → l ≢ j → (s : ℕ → Complex R) → s x ≡ v → column l s x ≡ v
      column_keeps v l d s p =
          loop_keeps (λ (s : ℕ → Complex R). s x ≡ v) (entry l) n 0 n (omega arith)
            (λ k hk s p. entry_keeps v k l hk (λ e. d (index_columns n k l i j hk hi e)) s p) s p

  abbrev scaled_by : (ℕ → ℕ → R) → Matrix (Complex R) → Matrix (Complex R)
  scaled_by f m = record m {
    buffer =
        loop m.nc 0
          (λ l.
            loop m.nr 0
              (λ k out. store out (index m.nr k l) (scale (f k l) (out (index m.nr k l)))))
          m.buffer;
  }

  -- What a product with diagonal matrices from both sides is.
  pub record IsSandwich (d : DiagMatrix R) (m : Matrix (Complex R)) (e : DiagMatrix R)
      : Type 0 where
    pub left : Matrix (Complex R)
    pub right : Matrix (Complex R)
    pub first : Matrix (Complex R)
    pub second : Matrix (Complex R)
    pub left_found : diag_times d m ≡ some left
    pub right_found : times_diag m e ≡ some right
    pub first_found : times_diag left e ≡ some first
    pub second_found : diag_times d right ≡ some second
    pub entries :
        (i j : ℕ)
        → i < m.nr
        → j < m.nc
        → (first.buffer (index m.nr i j) ≡ scale (d.at i ⊗ e.at j) (m.buffer (index m.nr i j)))
          × (second.buffer (index m.nr i j) ≡ first.buffer (index m.nr i j))

  -- In exact arithmetic, products with diagonal matrices of the right sizes from the left and from the
  -- right succeed in any order, and give each entry times the two factors of its row and its column.
  pub times_diag-diag_times :
      (d : DiagMatrix R) (m : Matrix (Complex R)) (e : DiagMatrix R)
      → IsExactArithmetic R
      → d.size ≡ m.nr
      → e.size ≡ m.nc
      → IsSandwich d m e
  unfolding diag_times times_diag
  times_diag-diag_times d m e laws hd he =
      let rows : (d.size == m.nr) ≡ true = ground arith in
      let cols : (m.nc == e.size) ≡ true = ground arith in
      let byr = λ (k l : ℕ). d.at k in
      let byc = λ (k l : ℕ). e.at l in
      record {
        left = scaled_by byr m;
        right = scaled_by byc m;
        first = scaled_by byc (scaled_by byr m);
        second = scaled_by byr (scaled_by byc m);
        left_found = rw rows refl;
        right_found = rw cols refl;
        first_found = rw cols refl;
        second_found = rw rows refl;
        entries = λ i j hi hj.
            let u = m.buffer (index m.nr i j) in
            let a =
              scale_loops m.nr m.nc byc (scaled_by byr m).buffer i j hi hj
              ∙ ap (scale (e.at j)) (scale_loops m.nr m.nc byr m.buffer i j hi hj) in
            let b =
              scale_loops m.nr m.nc byr (scaled_by byc m).buffer i j hi hj
              ∙ ap (scale (d.at i)) (scale_loops m.nr m.nc byc m.buffer i j hi hj) in
            let first =
              a
              ∙ scale-scale laws (e.at j) (d.at i) u
              ∙ ap (λ r. scale r u) (laws.mul_comm (e.at j) (d.at i)) in
            let second = b ∙ scale-scale laws (d.at i) (e.at j) u in (first, second ∙ sym first);
      }

  -- The entries of the matrix of a diagonal matrix.
  from_diag_lem :
      (d : DiagMatrix R) (i j : ℕ)
      → i < d.size
      → j < d.size
      → (from_diag d).buffer (index d.size i j)
        ≡ (if i == j then of_real (d.at i) else of_real (r.lit 0))
  unfolding from_diag
  from_diag_lem d i j hi hj = elim (Bool-cases (i == j)) [
    | inl e ↦
        let same : i ≡ j = ground arith in
        rw e (
          loop_hits {S = ℕ → Complex R} (λ s. s (index d.size i j) ≡ of_real (d.at i))
            (λ k out. store out (index d.size k k) (of_real (d.at k))) d.size 0 d.size i
            (omega arith) (omega arith) (omega arith)
            (λ k hk s p.
              store_keeps _ _ (index d.size k k) (of_real (d.at k)) s
                (λ q. ap (λ r. of_real (d.at r)) (index_rows d.size k k i j hk hi q)) p)
            (λ s.
              store_hits _ _ (index d.size i i) (of_real (d.at i)) s (ap (index d.size i) same)
                refl)
            (λ _. of_real (r.lit 0)))
    | inr e ↦
        let differs : i ≢ j = ground arith in
        rw e (
          loop_keeps {S = ℕ → Complex R} (λ s. s (index d.size i j) ≡ of_real (r.lit 0))
            (λ k out. store out (index d.size k k) (of_real (d.at k))) d.size 0 d.size (omega arith)
            (λ k hk s p.
              store_keeps _ _ (index d.size k k) (of_real (d.at k)) s
                (λ q. absurd (
                  differs (
                    sym (index_rows d.size k k i j hk hi q)
                    ∙ index_columns d.size k k i j hk hi q)))
                p)
            (λ _. of_real (r.lit 0)) refl)
  ]

  -- The diagonal of the matrix of a diagonal matrix.
  pub record IsDiagonal (new : ℕ → R) (d : DiagMatrix R) : Type 0 where
    pub back : DiagMatrix R
    pub found : diag new (from_diag d) ≡ some back
    pub size : back.size ≡ d.size
    pub entries : (i : ℕ) → i < d.size → back.at i ≡ d.at i
    pub others :
        (i j : ℕ)
        → i < d.size
        → j < d.size
        → i ≢ j
        → (from_diag d).buffer (index d.size i j) ≡ of_real (r.lit 0)

  -- The diagonal of the matrix that is made of a diagonal matrix is that diagonal
  -- matrix, and its other entries are zero.
  pub diag-from_diag : (new : ℕ → R) (d : DiagMatrix R) → IsDiagonal new d
  unfolding diag of_real
  diag-from_diag new d =
      let m = from_diag d in
      let square : (d.size == d.size) ≡ true = ground arith in
      record {
        back = record {
          size = d.size;
          at = loop d.size 0 (λ i out. store out i ((m.buffer (index d.size i i)).x)) new;
        };
        found = unfold from_diag in rw square refl;
        size = refl;
        entries = λ i hi.
            let one : m.buffer (index d.size i i) ≡ of_real (d.at i) =
              from_diag_lem d i i hi hi ∙ on_diagonal i (of_real (d.at i)) (of_real (r.lit 0)) in
            loop_hits {S = ℕ → R} (λ s. s i ≡ d.at i)
              (λ k out. store out k ((m.buffer (index d.size k k)).x)) d.size 0 d.size i
              (omega arith) (omega arith) (omega arith)
              (λ k hk s p.
                store_keeps i (d.at i) k _ s
                  (λ q.
                    ap (λ r. (m.buffer (index d.size r r)).x) q ∙ ap (λ (z : Complex R). z.x) one)
                  p)
              (λ s. store_hits i (d.at i) i _ s refl (ap (λ (z : Complex R). z.x) one)) new;
        others = λ i j hi hj differs.
            from_diag_lem d i j hi hj
            ∙ off_diagonal i j (of_real (d.at i)) (of_real (r.lit 0)) differs;
      }
