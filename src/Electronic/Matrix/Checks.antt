-- ===== src/Electronic/Matrix/Checks.antt =====
-- jdftx/electronic/matrix.cpp, `operator()` and `set` on blocks: which ranges they accept.
use python_jdftx.Common.{
  ℕ, ◌*◌, ◌≤◌, ◌<◌, ◌≡◌, refl, sym, ◌∙◌, true, ◌&&◌, some, ◌==◌, arith, Bool-cases, inl, inr,
}
use python_jdftx.Electronic.Matrix.{
  Matrix, index, Span, delta, place, rows_asserted, cols_asserted, is_whole, get_loops, set_loops,
  get_block, set_block,
}
use python_jdftx.Electronic.Matrix.Places.{Fits, whole_place, whole_delta}
use python_jdftx.Electronic.Matrix.Blocks.{IsTaken, IsPut, get_loops_lem, set_loops_lem}

Fits-rows_asserted : (n : ℕ) (s : Span) → Fits n s → rows_asserted n s ≡ true
unfolding rows_asserted
Fits-rows_asserted n s f = ground (arith, f.filled, f.within, f.steps)

cols_asserted_lem : (n : ℕ) (s : Span) → s.start < s.stop → 0 < s.step → cols_asserted n s ≡ true
unfolding cols_asserted
cols_asserted_lem n s h k = ground arith

behind : (n c r : ℕ) (cols : Span) (j : ℕ) → c ≤ cols.start → n * c ≤ index n r (place cols j)
unfolding index place
behind n c r cols j late = grind arith

module _ {C : Type 0} where
  whole-IsTaken :
      (m : Matrix C) (rows cols : Span)
      → is_whole m.nr rows && is_whole m.nc cols ≡ true
      → IsTaken m rows cols m
  whole-IsTaken m rows cols h =
      let r : is_whole m.nr rows ≡ true = ground arith in
      let c : is_whole m.nc cols ≡ true = ground arith in
      record {
        rows_taken = sym (whole_delta m.nr rows r);
        cols_taken = sym (whole_delta m.nc cols c);
        entries = λ i j _ _. rw (whole_place m.nr rows i r, whole_place m.nc cols j c) refl;
      }

  pub record Gets (new : ℕ → C) (m : Matrix C) (rows cols : Span) : Type 0 where
    pub block : Matrix C
    pub found : get_block new m rows cols ≡ some block
    pub taken : IsTaken m rows cols block

  pub get_block-Gets :
      (new : ℕ → C) (m : Matrix C) (rows cols : Span)
      → Fits m.nr rows
      → cols.start < cols.stop
      → 0 < cols.step
      → Gets new m rows cols
  unfolding get_block
  get_block-Gets new m rows cols f filled steps =
      let r = Fits-rows_asserted m.nr rows f in
      let c = cols_asserted_lem m.nc cols filled steps in
      elim (Bool-cases (is_whole m.nr rows && is_whole m.nc cols)) [
        | inl e ↦ record { block = m; found = rw e refl; taken = whole-IsTaken m rows cols e }
        | inr e ↦
            let b : Matrix C = record {
              nr = delta rows;
              nc = delta cols;
              buffer = get_loops m rows cols new;
            } in
            record {
              block = b;
              found = rw (e, r, c) refl;
              taken = record {
                rows_taken = refl;
                cols_taken = refl;
                entries = λ i j hi hj. get_loops_lem m rows cols new i j hi hj;
              };
            }
      ]

  -- A block that is written, and what is read there afterwards.
  pub record IsLens (new : ℕ → C) (m : Matrix C) (rows cols : Span) (block : Matrix C)
      : Type 0 where
    pub result : Matrix C
    pub written : set_block m rows cols block ≡ some result
    pub put : IsPut m rows cols block result
    pub back : Matrix C
    pub read : get_block new result rows cols ≡ some back
    pub rows_back : back.nr ≡ block.nr
    pub cols_back : back.nc ≡ block.nc
    pub entries :
        (i j : ℕ)
        → i < block.nr
        → j < block.nc
        → back.buffer (index back.nr i j) ≡ block.buffer (index block.nr i j)

  -- A block of the right size, written to rows and columns of a matrix, stands at their places
  -- and changes no other entry, and reading these rows and columns afterwards gives the block
  -- again.
  pub set_block-IsLens :
      (new : ℕ → C) (m : Matrix C) (rows cols : Span) (block : Matrix C)
      → Fits m.nr rows
      → Fits m.nc cols
      → block.nr ≡ delta rows
      → block.nc ≡ delta cols
      → IsLens new m rows cols block
  unfolding set_block
  set_block-IsLens new m rows cols block f g hr hc =
      let r = Fits-rows_asserted m.nr rows f in
      let c = cols_asserted_lem m.nc cols g.filled g.steps in
      let same_rows : (delta rows == block.nr) ≡ true = ground arith in
      let same_cols : (delta cols == block.nc) ≡ true = ground arith in
      let result : Matrix C = record m { buffer = set_loops m rows cols block } in
      let put = set_loops_lem m rows cols block f g.steps in
      let back = get_block-Gets new result rows cols f g.filled g.steps in
      record {
        result = result;
        written = rw (r, c, same_rows, same_cols) refl;
        put = put;
        back = back.block;
        read = back.found;
        rows_back = back.taken.rows_taken ∙ sym hr;
        cols_back = back.taken.cols_taken ∙ sym hc;
        entries = λ i j hi hj.
            let at_row : i < delta rows = omega arith in
            let at_col : j < delta cols = omega arith in
            back.taken.entries i j at_row at_col ∙ put.entries i j at_row at_col;
      }

  -- A block that is read from behind the end of the buffer.
  pub record IsOutside (new : ℕ → C) (m : Matrix C) (rows cols : Span) : Type 0 where
    pub block : Matrix C
    pub found : get_block new m rows cols ≡ some block
    pub entries :
        (i j : ℕ)
        → i < delta rows
        → j < delta cols
        → (k : ℕ) × (m.nr * m.nc ≤ k) × (block.buffer (index block.nr i j) ≡ m.buffer k)

  -- The assertions let columns behind the last one pass: all entries of such a block are read
  -- from behind the end of the buffer.
  pub get_block-IsOutside :
      (new : ℕ → C) (m : Matrix C) (rows cols : Span)
      → Fits m.nr rows
      → m.nc ≤ cols.start
      → cols.start < cols.stop
      → 0 < cols.step
      → IsOutside new m rows cols
  get_block-IsOutside new m rows cols f late filled steps =
      let g = get_block-Gets new m rows cols f filled steps in
      record {
        block = g.block;
        found = g.found;
        entries = λ i j hi hj. (
          index m.nr (place rows i) (place cols j),
          behind m.nr m.nc (place rows i) cols j late,
          g.taken.entries i j hi hj,
        );
      }
