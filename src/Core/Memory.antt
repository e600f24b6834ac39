-- ===== src/Core/Memory.antt =====
-- jdftx/core/ManagedMemory.cpp and ManagedMemory.h: blocks of numbers that live on the CPU or on the
-- GPU, and the report of the memory that they use. The allocation, release and copy of a block
-- belong to FFTW and CUDA and are arguments (`Allocator`); the build is one with GPU_ENABLED and
-- ENABLE_PROFILING. An allocation that fails ends the program, here as none.
pub mod Accounts
pub mod Pools
pub mod Moves
pub mod Empty
use python_jdftx.Common.{
  ℕ, zero, suc, ◌+◌, ◌-◌, ◌%◌, Bool, true, false, not, ◌&&◌, ◌||◌, List, [], ◌∷◌, ◌++◌, Option,
  none, some, ltb, ◌==◌, if◌then◌else◌,
}
use python_jdftx.Core.Tasks.{size_mod}
use python_jdftx.Core.Outcome.{Bytes}
use python_jdftx.Core.Text.{text_eq}

-- `malloc`, `free` and `copy` on the CPU or the GPU, with the elements that a block holds and
-- whether it is in use. A pointer is none, where it is null, or a number; `malloc` may give a null
-- pointer without a failure.
pub record Allocator (H D : Type 0) : Type 0 where
  pub malloc : (on_gpu : Bool) (n : ℕ) → H → Option (Option ℕ × H)
  pub free : (on_gpu : Bool) (p : ℕ) → H → H
  pub copy : (target source n : ℕ) → H → H
  pub content : (p i : ℕ) → H → D
  pub is_live : ℕ → H → Bool

-- `Usage`, with `+=` and `-=` on size_t.
pub record Usage : Type 0 where
  pub current : ℕ
  pub peak : ℕ

unfoldable pub add_usage : Usage → ℕ → Usage
add_usage u n =
    let current = (u.current + n) % size_mod in
    record { current = current; peak = if ltb u.peak current then current else u.peak }

unfoldable pub remove_usage : Usage → ℕ → Usage
remove_usage u n = record u { current = (u.current + (size_mod - n % size_mod)) % size_mod }

-- `usageMap` and `usageTotal`. A category that is not in the map has a usage of 0.
pub record Report : Type 0 where
  pub usage_map : Bytes → Usage
  pub usage_total : Usage

unfoldable pub add_report : Bytes → ℕ → Report → Report
add_report category n r = record {
  usage_map = λ c. if text_eq c category then add_usage (r.usage_map c) n else r.usage_map c;
  usage_total = add_usage r.usage_total n;
}

unfoldable pub remove_report : Bytes → ℕ → Report → Report
remove_report category n r = record {
  usage_map = λ c. if text_eq c category then remove_usage (r.usage_map c) n else r.usage_map c;
  usage_total = remove_usage r.usage_total n;
}

pub record ManagedMemory : Type 0 where
  pub category : Bytes
  pub n_elements : ℕ
  pub c : Option ℕ
  pub on_gpu : Bool

pub record World (H : Type 0) : Type 0 where
  pub heap : H
  pub report : Report

-- The constructor.
abbrev pub empty_memory : ManagedMemory
empty_memory = record { category = []; n_elements = 0; c = none; on_gpu = false }

module _ {H D : Type 0} (a : Allocator H D) where
  -- `cudaFree` and `fftw_free`, which do nothing on a null pointer.
  unfoldable pub release : Bool → Option ℕ → H → H
  release on_gpu none h = h
  release on_gpu (some p) h = a.free on_gpu p h

  unfoldable pub mem_free : ManagedMemory → World H → ManagedMemory × World H
  mem_free m w =
      let freed : ManagedMemory = record {
        category = [];
        n_elements = 0;
        c = none;
        on_gpu = m.on_gpu;
      } in
      let after : World H = record {
        heap = release m.on_gpu m.c w.heap;
        report = remove_report m.category m.n_elements w.report;
      } in
      if m.n_elements == 0 then (m, w) else (freed, after)

  -- "already in required state".
  unfoldable pub is_required : Bytes → ℕ → Bool → ManagedMemory → Bool
  is_required category n on_gpu m =
      text_eq category m.category
      && ((n == m.n_elements) && (if on_gpu then m.on_gpu else not m.on_gpu))

  -- A null pointer of `fftw_malloc` ends the program, one of `cudaMalloc` does not.
  unfoldable pub checked_pointer : Bool → Option (Option ℕ × H) → Option (Option ℕ × H)
  checked_pointer on_gpu none = none
  checked_pointer on_gpu (some (some p, h)) = some (some p, h)
  checked_pointer on_gpu (some (none, h)) = if on_gpu then some (none, h) else none

  abbrev pub acquire : (on_gpu : Bool) (n : ℕ) → H → Option (Option ℕ × H)
  acquire on_gpu n h = checked_pointer on_gpu (a.malloc on_gpu n h)

  -- The allocation at the end of `memInit`.
  unfoldable pub allocated :
      Bytes → ℕ → Bool → Report → Option (Option ℕ × H) → Option (ManagedMemory × World H)
  allocated category n on_gpu r none = none
  allocated category n on_gpu r (some (p, h)) =
      let m : ManagedMemory = record {
        category = category;
        n_elements = n;
        c = p;
        on_gpu = on_gpu;
      } in
      let w : World H = record { heap = h; report = add_report category n r } in some (m, w)

  unfoldable pub mem_init :
      Bytes → ℕ → Bool → ManagedMemory → World H → Option (ManagedMemory × World H)
  mem_init category n on_gpu m w =
      let freed = (mem_free m w).1 in
      if is_required category n on_gpu m
      then some (m, w)
      else allocated category n on_gpu freed.report (acquire on_gpu n freed.heap)

  -- `memMove`: what this object and the other one are afterwards.
  unfoldable pub mem_move : (this other : ManagedMemory) → ManagedMemory × ManagedMemory
  mem_move this other = (other, this)

  -- `cudaMemcpy`, which copies nothing to a null pointer.
  unfoldable pub copy_to : (target : Option ℕ) (source n : ℕ) → H → H
  copy_to none source n h = h
  copy_to (some q) source n h = a.copy q source n h

  -- The copy to a new block on the other side, and the release of the old one.
  unfoldable pub moved :
      (on_gpu : Bool) (p : ℕ)
      → ManagedMemory
      → World H
      → Option (Option ℕ × H)
      → Option (ManagedMemory × World H)
  moved on_gpu p m w none = none
  moved on_gpu p m w (some (q, h)) =
      let m2 : ManagedMemory = record m { c = q; on_gpu = on_gpu } in
      let w2 : World H = record w { heap = a.free m.on_gpu p (copy_to q p m.n_elements h) } in
      some (m2, w2)

  unfoldable pub move_pointer :
      (on_gpu : Bool) → Option ℕ → ManagedMemory → World H → Option (ManagedMemory × World H)
  move_pointer on_gpu none m w = some (m, w)
  move_pointer on_gpu (some p) m w = moved on_gpu p m w (acquire on_gpu m.n_elements w.heap)

  unfoldable pub to_cpu : ManagedMemory → World H → Option (ManagedMemory × World H)
  to_cpu m w = if m.on_gpu then move_pointer false m.c m w else some (m, w)

  unfoldable pub to_gpu : ManagedMemory → World H → Option (ManagedMemory × World H)
  to_gpu m w = if m.on_gpu then some (m, w) else move_pointer true m.c m w
