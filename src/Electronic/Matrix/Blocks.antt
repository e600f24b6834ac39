-- ===== src/Electronic/Matrix/Blocks.antt =====
-- jdftx/electronic/matrix.cpp, `operator()` and `set` on blocks: what is read and written.
use python_jdftx.Common.{ℕ, ◌<◌, ◌≡◌, ◌≢◌, refl, true, ◌==◌, arith, Bool-cases, inl, inr}
use python_jdftx.Common.Loops.{loop, loop_keeps, loop_hits}
use python_jdftx.Electronic.Matrix.{Matrix, store, index, Span, delta, place, get_loops, set_loops}
use python_jdftx.Electronic.Matrix.Places.{
  Fits, place_inside, index_columns, index_rows, place_injective,
}

module _ {C : Type 0} where
  pub store_keeps :
      (x : ℕ) (v : C) (k : ℕ) (c : C) (s : ℕ → C) → (k ≡ x → c ≡ v) → s x ≡ v → store s k c x ≡ v
  store_keeps x v k c s same h = elim (Bool-cases (x == k)) [
    | inl e ↦ rw e (same (ground arith))
    | inr e ↦ rw e h
  ]

  pub store_hits : (x : ℕ) (v : C) (k : ℕ) (c : C) (s : ℕ → C) → k ≡ x → c ≡ v → store s k c x ≡ v
  store_hits x v k c s e same = let here : (x == k) ≡ true = ground arith in rw here same

  -- Two nested loops that store: every write at a place writes `v`, so `v` stays there.
  pub stores_keep :
      (n m x : ℕ) (v : C) (addr : ℕ → ℕ → ℕ) (val : ℕ → ℕ → C)
      → ((i j : ℕ) → i < n → j < m → addr i j ≡ x → val i j ≡ v)
      → (s : ℕ → C) → s x ≡ v
      → loop n 0 (λ i. loop m 0 (λ j out. store out (addr i j) (val i j))) s x ≡ v
  stores_keep n m x v addr val same s h =
      loop_keeps (λ (s : ℕ → C). s x ≡ v) (λ i. loop m 0 (λ j out. store out (addr i j) (val i j)))
        n 0 n (omega arith)
        (λ i hi s p.
          loop_keeps (λ (s : ℕ → C). s x ≡ v) (λ j out. store out (addr i j) (val i j)) m 0 m
            (omega arith) (λ j hj s p. store_keeps x v (addr i j) (val i j) s (same i j hi hj) p) s
            p)
        s h

  pub stores_hit :
      (n m i j x : ℕ) (v : C) (addr : ℕ → ℕ → ℕ) (val : ℕ → ℕ → C)
      → ((i j : ℕ) → i < n → j < m → addr i j ≡ x → val i j ≡ v)
      → i < n
      → j < m
      → addr i j ≡ x
      → (s : ℕ → C) → loop n 0 (λ i. loop m 0 (λ j out. store out (addr i j) (val i j))) s x ≡ v
  stores_hit n m i j x v addr val same hi hj e s =
      loop_hits (λ (s : ℕ → C). s x ≡ v) (λ i. loop m 0 (λ j out. store out (addr i j) (val i j))) n
        0 n i (omega arith) (omega arith) (omega arith)
        (λ i hi s p.
          loop_keeps (λ (s : ℕ → C). s x ≡ v) (λ j out. store out (addr i j) (val i j)) m 0 m
            (omega arith) (λ j hj s p. store_keeps x v (addr i j) (val i j) s (same i j hi hj) p) s
            p)
        (λ s.
          loop_hits (λ (s : ℕ → C). s x ≡ v) (λ j out. store out (addr i j) (val i j)) m 0 m j
            (omega arith) (omega arith) (omega arith)
            (λ j hj s p. store_keeps x v (addr i j) (val i j) s (same i j hi hj) p)
            (λ s. store_hits x v (addr i j) (val i j) s e (same i j hi hj e)) s)
        s

  -- A block as it is read: its entries are those of the matrix at their places.
  pub record IsTaken (m : Matrix C) (rows cols : Span) (block : Matrix C) : Type 0 where
    pub rows_taken : block.nr ≡ delta rows
    pub cols_taken : block.nc ≡ delta cols
    pub entries :
        (i j : ℕ)
        → i < delta rows
        → j < delta cols
        → block.buffer (index block.nr i j) ≡ m.buffer (index m.nr (place rows i) (place cols j))

  pub get_loops_lem :
      (m : Matrix C) (rows cols : Span) (new : ℕ → C) (i j : ℕ)
      → i < delta rows
      → j < delta cols
      → get_loops m rows cols new (index (delta rows) i j)
        ≡ m.buffer (index m.nr (place rows i) (place cols j))
  unfolding get_loops
  get_loops_lem m rows cols new i j hi hj =
      let n = delta rows in
      stores_hit n (delta cols) i j (index n i j)
        (m.buffer (index m.nr (place rows i) (place cols j))) (λ k l. index n k l)
        (λ k l. m.buffer (index m.nr (place rows k) (place cols l)))
        (λ k l hk hl e.
          let same_row = index_rows n k l i j hk hi e in
          let same_col = index_columns n k l i j hk hi e in rw (same_row, same_col) refl)
        hi hj refl new

  -- A block that is written: its entries stand at their places, and the other entries are as before.
  pub record IsPut (m : Matrix C) (rows cols : Span) (block result : Matrix C) : Type 0 where
    pub rows_kept : result.nr ≡ m.nr
    pub cols_kept : result.nc ≡ m.nc
    pub entries :
        (i j : ℕ)
        → i < delta rows
        → j < delta cols
        → result.buffer (index m.nr (place rows i) (place cols j))
          ≡ block.buffer (index block.nr i j)
    pub others :
        (x : ℕ)
        → ((i j : ℕ)
            → i < delta rows
            → j < delta cols
            → index m.nr (place rows i) (place cols j) ≢ x)
        → result.buffer x ≡ m.buffer x

  pub set_loops_lem :
      (m : Matrix C) (rows cols : Span) (block : Matrix C)
      → Fits m.nr rows
      → 0 < cols.step
      → IsPut m rows cols block (record m { buffer = set_loops m rows cols block })
  unfolding set_loops
  set_loops_lem m rows cols block f steps =
      let addr = λ (i j : ℕ). index m.nr (place rows i) (place cols j) in
      let val = λ (i j : ℕ). block.buffer (index block.nr i j) in
      record {
        rows_kept = refl;
        cols_kept = refl;
        entries = λ i j hi hj.
            stores_hit (delta rows) (delta cols) i j (addr i j) (val i j) addr val
              (λ k l hk hl e.
                let in_k = place_inside m.nr rows k f hk in
                let in_i = place_inside m.nr rows i f hi in
                let same_row = place_injective rows k i f.steps (
                  index_rows m.nr (place rows k) (place cols l) (place rows i) (place cols j) in_k
                    in_i e) in
                let same_col = place_injective cols l j steps (
                  index_columns m.nr (place rows k) (place cols l) (place rows i) (place cols j)
                    in_k in_i e) in
                rw (same_row, same_col) refl)
              hi hj refl m.buffer;
        others = λ x away.
            stores_keep (delta rows) (delta cols) x (m.buffer x) addr val
              (λ i j hi hj e. absurd (away i j hi hj e)) m.buffer refl;
      }
