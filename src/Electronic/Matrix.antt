-- ===== src/Electronic/Matrix.antt =====
-- jdftx/electronic/matrix.h and matrix.cpp: matrices in column-major buffers, on the CPU. The numbers
-- are arguments, and so is what a new buffer holds before it is written. A failed `myassert` ends the
-- program, here as none.
pub mod Places
pub mod Blocks
pub mod Checks
pub mod Algebra
use python_jdftx.Common.{
  ℕ, zero, suc, ◌+◌, ◌-◌, ◌*◌, ◌/◌, Bool, true, false, not, ◌&&◌, ◌||◌, Option, none, some, ltb,
  leb, ◌==◌, if◌then◌else◌,
}
use python_jdftx.Common.Loops.{loop}
use python_jdftx.Core.Grid.Sizes.{ceildiv}

pub record Matrix (C : Type 0) : Type 0 where
  pub nr : ℕ
  pub nc : ℕ
  pub buffer : ℕ → C

abbrev pub store : {C : Type 0} → (ℕ → C) → ℕ → C → ℕ → C
store buffer k v = λ x. if x == k then v else buffer x

-- `index`: into the buffer of a matrix with `nr` rows.
unfoldable pub index : (nr i j : ℕ) → ℕ
index nr i j = nr * j + i

-- A range of rows or columns: `iStart`, `iStep` and `iStop`.
pub record Span : Type 0 where
  pub start : ℕ
  pub step : ℕ
  pub stop : ℕ

unfoldable pub delta : Span → ℕ
delta s = ceildiv (s.stop - s.start) s.step

unfoldable pub place : Span → ℕ → ℕ
place s i = i * s.step + s.start

-- The assertions on the rows, and those on the columns, which join the two bounds by `||`.
unfoldable pub rows_asserted : ℕ → Span → Bool
rows_asserted n s =
    (leb 0 s.start && ltb s.start n) && ((ltb s.start s.stop && leb s.stop n) && ltb 0 s.step)

unfoldable pub cols_asserted : ℕ → Span → Bool
cols_asserted n s =
    (leb 0 s.start || ltb s.start n) && ((ltb s.start s.stop || leb s.stop n) && ltb 0 s.step)

-- `iStart==0 && iStep==1 && iStop==nr`.
unfoldable pub is_whole : ℕ → Span → Bool
is_whole n s = s.start == 0 && (s.step == 1 && s.stop == n)

module _ {C : Type 0} where
  -- The loops of `operator()` and `set` on a block.
  unfoldable pub get_loops : Matrix C → Span → Span → (ℕ → C) → ℕ → C
  get_loops m rows cols new =
      loop (delta rows) 0
        (λ i. loop (delta cols) 0 (λ j out.
          store out (index (delta rows) i j) (m.buffer (index m.nr (place rows i) (place cols j)))))
        new

  unfoldable pub set_loops : Matrix C → Span → Span → Matrix C → ℕ → C
  set_loops m rows cols block =
      loop (delta rows) 0
        (λ i. loop (delta cols) 0 (λ j out.
          store out (index m.nr (place rows i) (place cols j)) (block.buffer (index block.nr i j))))
        m.buffer

  unfoldable pub get_block : (new : ℕ → C) → Matrix C → (rows cols : Span) → Option (Matrix C)
  get_block new m rows cols =
      let block : Matrix C = record {
        nr = delta rows;
        nc = delta cols;
        buffer = get_loops m rows cols new;
      } in
      if is_whole m.nr rows && is_whole m.nc cols
      then some m
      else if rows_asserted m.nr rows && cols_asserted m.nc cols
      then some block
      else none

  unfoldable pub set_block : Matrix C → (rows cols : Span) → Matrix C → Option (Matrix C)
  set_block m rows cols block =
      if (rows_asserted m.nr rows && cols_asserted m.nc cols)
        && (delta rows == block.nr && delta cols == block.nc)
      then some (record m { buffer = set_loops m rows cols block })
      else none

  unfoldable pub get_element : Matrix C → (i j : ℕ) → Option C
  get_element m i j = if ltb i m.nr && ltb j m.nc then some (m.buffer (index m.nr i j)) else none

  unfoldable pub set_element : Matrix C → (i j : ℕ) → C → Option (Matrix C)
  set_element m i j c =
      if ltb i m.nr && ltb j m.nc
      then some (record m { buffer = store m.buffer (index m.nr i j) c })
      else none
