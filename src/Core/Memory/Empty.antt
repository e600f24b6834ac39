-- ===== src/Core/Memory/Empty.antt =====
-- jdftx/core/ManagedMemory.cpp, `memInit` and `memFree`: a block of no elements.
use python_jdftx.Common.{ℕ, ◌≡◌, Option, none, some}
use python_jdftx.Core.Memory.{Allocator, ManagedMemory, World, mem_free}

module _ {H D : Type 0} (a : Allocator H D) where
  -- An object that has a block, of which it does not get rid.
  pub record IsStuck (m : ManagedMemory) (w : World H) : Type 0 where
    pub block : ℕ
    pub owned : m.c ≡ some block
    pub stays : mem_free a m w ≡ (m, w)

  -- The results that are out of memory, have a null pointer, or are stuck.
  pub data IsLeaky : Option (ManagedMemory × World H) → Type 0 where
    out_of_memory : IsLeaky none
    no_block : {m : ManagedMemory} {w : World H} → m.c ≡ none → IsLeaky (some (m, w))
    leaks : {m : ManagedMemory} {w : World H} → IsStuck m w → IsLeaky (some (m, w))
