-- ===== src/Core/Tests/Buffers.antt =====
-- Objects on a heap that numbers its blocks.
use python_jdftx.Common.{
  ℕ, ◌+◌, ◌≡◌, refl, Bool, Bool-cases, inl, inr, ◌⊎◌, true, false, not, ◌&&◌, [], ◌∷◌, Option, none,
  some, ltb, ◌==◌, if◌then◌else◌, arith,
}
use python_jdftx.Core.Text.{codes, text_eq}
use python_jdftx.Core.Memory.{
  Allocator, Report, add_report, ManagedMemory, World, empty_memory, mem_free, is_required,
  allocated, mem_init, checked_pointer, to_cpu, to_gpu,
}
use python_jdftx.Core.Memory.Accounts.{Agrees}
use python_jdftx.Core.Memory.Pools.{constructed, inited, Reach, start, later, Reach-Agrees}
use python_jdftx.Core.Memory.Moves.{Held, IsAllocator, IsPlaced, moves-IsPlaced}

pub record Blocks : Type 0 where
  next : ℕ
  freed : ℕ → Bool
  holds : (p i : ℕ) → ℕ

abbrev grown : Blocks → Blocks
grown h = record {
  next = h.next + 1;
  freed = λ q. if q == h.next then false else h.freed q;
  holds = h.holds;
}

abbrev in_use : ℕ → Blocks → Bool
in_use p h = ltb p h.next && not (h.freed p)

abbrev copy_block : (target source n : ℕ) → Blocks → Blocks
copy_block t s n h = record h {
  holds = λ q i. if (q == t) && ltb i n then h.holds s i else h.holds q i;
}

abbrev free_block : Bool → ℕ → Blocks → Blocks
free_block g p h = record h { freed = λ q. if q == p then true else h.freed q }

-- On the GPU there is no block for 0 elements.
abbrev new_block : Bool → ℕ → Blocks → Option (Option ℕ × Blocks)
new_block g n h = if g && (n == 0) then some (none, h) else some (some h.next, grown h)

abbrev numbered : Allocator Blocks ℕ
numbered = record {
  malloc = new_block;
  free = free_block;
  copy = copy_block;
  content = λ p i h. h.holds p i;
  is_live = in_use;
}

new_block-cases :
    (g : Bool) (n : ℕ) (h k : Blocks) (p : Option ℕ)
    → new_block g n h ≡ some (p, k)
    → ((p ≡ some h.next) × (k ≡ grown h)) ⊎ ((p ≡ none) × (k ≡ h) × (n ≡ 0))
new_block-cases g n h k p e = elim (Bool-cases (g && (n == 0))) [
  | inl none_needed ↦ inr (ground arith)
  | inr needed ↦ inl (ground arith)
]

numbered_fresh :
    (g : Bool) (n : ℕ) (h k : Blocks) (p : ℕ)
    → new_block g n h ≡ some (some p, k)
    → (in_use p h ≡ false) × (in_use p k ≡ true)
numbered_fresh g n h k p e = elim (new_block-cases g n h k (some p) e) [
  | inl (at, grows) ↦ let same : p ≡ h.next = cc at in rw (same, grows) (ground arith, ground arith)
  | inr (null, _, _) ↦ cc null
]

numbered_empty : (g : Bool) (n : ℕ) (h k : Blocks) → new_block g n h ≡ some (none, k) → n ≡ 0
numbered_empty g n h k e = elim (new_block-cases g n h k none e) [
  | inl (at, grows) ↦ cc at
  | inr (_, _, empty) ↦ empty
]

numbered_kept :
    (g : Bool) (n : ℕ) (h k : Blocks) (p : Option ℕ) (q : ℕ)
    → new_block g n h ≡ some (p, k)
    → in_use q h ≡ true
    → (in_use q k ≡ true) × ((i : ℕ) → k.holds q i ≡ h.holds q i)
numbered_kept g n h k p q e live = elim (new_block-cases g n h k p e) [
  | inl (at, grows) ↦ rw grows (ground arith, λ i. refl)
  | inr (null, same, _) ↦ rw same (live, λ i. refl)
]

numbered-IsAllocator : IsAllocator numbered
numbered-IsAllocator = record {
  fresh = numbered_fresh;
  null_empty = numbered_empty;
  malloc_kept = numbered_kept;
  copied = λ t s n i h _ _ less. ground arith;
  copy_kept = λ t s n q i h differs. ground arith;
  copy_live = λ t s n q h. refl;
  free_kept = λ g p q h differs. (ground arith, λ i. refl);
}

abbrev heap : Blocks
heap = record { next = 3; freed = λ _. false; holds = λ p i. p + i + 7 }

abbrev no_report : Report
no_report = record {
  usage_map = λ _. record { current = 0; peak = 0 };
  usage_total = record { current = 0; peak = 0 };
}

abbrev on_host : ManagedMemory
on_host = record { category = codes "matrix"; n_elements = 6; c = some 2; on_gpu = false }

abbrev world : World Blocks
world = record { heap = heap; report = no_report }

moves-IsPlaced_example :
    IsPlaced numbered false on_host world (to_cpu numbered on_host world)
    × IsPlaced numbered true on_host world (to_gpu numbered on_host world)
unfolding Held
moves-IsPlaced_example = moves-IsPlaced numbered on_host world numbered-IsAllocator refl

abbrev made : ManagedMemory
made = record { category = codes "matrix"; n_elements = 6; c = some 3; on_gpu = true }

abbrev with_matrix : World Blocks
with_matrix = record { heap = grown heap; report = add_report (codes "matrix") 6 no_report }

made_runs : mem_init numbered (codes "matrix") 6 true empty_memory world ≡ some (made, with_matrix)
unfolding mem_init mem_free is_required allocated checked_pointer text_eq
made_runs = refl

made-Reach : Reach numbered (record { objects = made ∷ []; world = with_matrix })
made-Reach =
    later (later (start heap) constructed)
      (inited [] [] empty_memory made with_matrix (codes "matrix") 6 true refl made_runs)

Reach-Agrees_example : Agrees with_matrix.report (made ∷ [])
Reach-Agrees_example = Reach-Agrees numbered made-Reach
