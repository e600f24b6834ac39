-- ===== src/Core/Memory/Moves.antt =====
-- jdftx/core/ManagedMemory.cpp, `toCpu` and `toGpu`: a move to the other side is not seen by those
-- who read the data.
use python_jdftx.Common.{
  ℕ, ◌<◌, arith, ◌≡◌, ◌≢◌, ◌⊎◌, inl, inr, refl, sym, ap, ◌∙◌, subst, Bool, true, false, Option,
  none, some, Option-cases, if◌then◌else◌,
}
use python_jdftx.Core.Memory.{
  Allocator, ManagedMemory, World, checked_pointer, acquire, copy_to, moved, move_pointer, to_cpu,
  to_gpu,
}

-- What the code relies on: a new block was not in use and is, and a null pointer stands for a
-- block of 0 elements; the others stay as they are; a copy of `n` elements gives the target the
-- first `n` elements of the source, and changes no other block; a release changes no other block.
pub record IsAllocator {H D : Type 0} (a : Allocator H D) : Type 0 where
  pub fresh :
      (g : Bool) (n : ℕ) (h k : H) (p : ℕ)
      → a.malloc g n h ≡ some (some p, k)
      → (a.is_live p h ≡ false) × (a.is_live p k ≡ true)
  pub null_empty : (g : Bool) (n : ℕ) (h k : H) → a.malloc g n h ≡ some (none, k) → n ≡ 0
  pub malloc_kept :
      (g : Bool) (n : ℕ) (h k : H) (p : Option ℕ) (q : ℕ)
      → a.malloc g n h ≡ some (p, k)
      → a.is_live q h ≡ true
      → (a.is_live q k ≡ true) × ((i : ℕ) → a.content q i k ≡ a.content q i h)
  pub copied :
      (target source n i : ℕ) (h : H)
      → a.is_live target h ≡ true
      → a.is_live source h ≡ true
      → i < n
      → a.content target i (a.copy target source n h) ≡ a.content source i h
  pub copy_kept :
      (target source n q i : ℕ) (h : H)
      → q ≢ target
      → a.content q i (a.copy target source n h) ≡ a.content q i h
  pub copy_live :
      (target source n q : ℕ) (h : H) → a.is_live q (a.copy target source n h) ≡ a.is_live q h
  pub free_kept :
      (g : Bool) (p q : ℕ) (h : H)
      → q ≢ p
      → (a.is_live q (a.free g p h) ≡ a.is_live q h)
        × ((i : ℕ) → a.content q i (a.free g p h) ≡ a.content q i h)

module _ {H D : Type 0} (a : Allocator H D) where
  -- What a reader sees of an element: nothing, or its value, wherever it is.
  unfoldable pub view : Option ℕ → ℕ → H → Option D
  view none i h = none
  view (some p) i h = some (a.content p i h)

  -- Whether the block of an object is in use.
  unfoldable pub Held : Option ℕ → H → Type 0
  Held none h = Unit
  Held (some p) h = a.is_live p h ≡ true

  -- An object that was moved to a side, and all other blocks.
  pub record IsRelocated (g : Bool) (m : ManagedMemory) (w : World H) (m2 : ManagedMemory)
      (w2 : World H) : Type 0 where
    pub side : (m2.c ≡ none) ⊎ (m2.on_gpu ≡ g)
    pub category : m2.category ≡ m.category
    pub n_elements : m2.n_elements ≡ m.n_elements
    pub seen : (i : ℕ) → i < m.n_elements → view m2.c i w2.heap ≡ view m.c i w.heap
    pub is_held : Held m2.c w2.heap
    pub others :
        (q : ℕ)
        → some q ≢ m.c
        → a.is_live q w.heap ≡ true
        → (a.is_live q w2.heap ≡ true) × ((i : ℕ) → a.content q i w2.heap ≡ a.content q i w.heap)

  -- The end of a move: out of memory, or moved.
  pub data IsPlaced (g : Bool) (m : ManagedMemory) (w : World H)
      : Option (ManagedMemory × World H) → Type 0 where
    out_of_memory : acquire a g m.n_elements w.heap ≡ none → IsPlaced g m w none
    placed :
        {m2 : ManagedMemory} {w2 : World H}
        → IsRelocated g m w m2 w2
        → IsPlaced g m w (some (m2, w2))

  live-differs : (q p : ℕ) (h : H) → a.is_live q h ≡ false → a.is_live p h ≡ true → q ≢ p
  live-differs q p h dead live e =
      let both : false ≡ true = sym dead ∙ ap (λ x. a.is_live x h) e ∙ live in cc

  stays-IsRelocated :
      (g : Bool) (m : ManagedMemory) (w : World H)
      → (m.c ≡ none) ⊎ (m.on_gpu ≡ g)
      → Held m.c w.heap
      → IsRelocated g m w m w
  stays-IsRelocated g m w s h = record {
    side = s;
    category = refl;
    n_elements = refl;
    seen = λ i less. refl;
    is_held = h;
    others = λ q d l. (l, λ i. refl);
  }

  checked_pointer-same :
      (g : Bool) (o : Option (Option ℕ × H)) (p : Option ℕ) (k : H)
      → checked_pointer a g o ≡ some (p, k)
      → o ≡ some (p, k)
  unfolding checked_pointer
  checked_pointer-same g none p k e = e
  checked_pointer-same g (some (some q, h)) p k e = e
  checked_pointer-same true (some (none, h)) p k e = e
  checked_pointer-same false (some (none, h)) p k e = cc e

  -- A pointer that was acquired comes from the allocator.
  acquire-malloc :
      (g : Bool) (n : ℕ) (h : H) (p : Option ℕ) (k : H)
      → acquire a g n h ≡ some (p, k)
      → a.malloc g n h ≡ some (p, k)
  acquire-malloc g n h p k e = checked_pointer-same g (a.malloc g n h) p k e

  -- A block of no elements is moved to a null pointer.
  dropped-IsRelocated :
      (g : Bool) (p : ℕ) (m : ManagedMemory) (w : World H) (k : H)
      → IsAllocator a
      → m.c ≡ some p
      → a.malloc g m.n_elements w.heap ≡ some (none, k)
      → IsRelocated g m w
          (record m { c = none; on_gpu = g })
          (record w { heap = a.free m.on_gpu p k })
  unfolding Held
  dropped-IsRelocated g p m w k laws own found =
      let empty = laws.null_empty g m.n_elements w.heap k found in
      record {
        side = inl refl;
        category = refl;
        n_elements = refl;
        seen = λ i less. absurd (omega arith);
        is_held = tt;
        others = λ r differs there.
            let kept = laws.malloc_kept g m.n_elements w.heap k none r found there in
            let gone = laws.free_kept m.on_gpu p r k (λ e. differs (ap some e ∙ sym own)) in
            (gone.0 ∙ kept.0, λ i. gone.1 i ∙ kept.1 i);
      }

  moved-IsRelocated :
      (g : Bool) (p q : ℕ) (m : ManagedMemory) (w : World H) (k : H)
      → IsAllocator a
      → m.c ≡ some p
      → a.is_live p w.heap ≡ true
      → a.malloc g m.n_elements w.heap ≡ some (some q, k)
      → IsRelocated g m w
          (record m { c = some q; on_gpu = g })
          (record w { heap = a.free m.on_gpu p (a.copy q p m.n_elements k) })
  unfolding view Held
  moved-IsRelocated g p q m w k laws own live found =
      let n = m.n_elements in
      let new = laws.fresh g n w.heap k q found in
      let old = laws.malloc_kept g n w.heap k (some q) p found live in
      let apart : q ≢ p = λ e. live-differs q p w.heap new.0 live e in
      let away = laws.free_kept m.on_gpu p q (a.copy q p n k) apart in
      record {
        side = inr refl;
        category = refl;
        n_elements = refl;
        seen = λ i less.
            ap some (away.1 i ∙ laws.copied q p n i k new.1 old.0 less ∙ old.1 i)
            ∙ ap (λ c. view c i w.heap) (sym own);
        is_held = away.0 ∙ laws.copy_live q p n q k ∙ new.1;
        others = λ r differs there.
            let r_p : r ≢ p = λ e. differs (ap some e ∙ sym own) in
            let r_q : r ≢ q = λ e. live-differs q r w.heap new.0 there (sym e) in
            let kept = laws.malloc_kept g n w.heap k (some q) r found there in
            let gone = laws.free_kept m.on_gpu p r (a.copy q p n k) r_p in
            (
              gone.0 ∙ laws.copy_live q p n r k ∙ kept.0,
              λ i. gone.1 i ∙ laws.copy_kept q p n r i k r_q ∙ kept.1 i,
            );
      }

  move_pointer-IsPlaced :
      (g : Bool) (m : ManagedMemory) (w : World H) (c : Option ℕ)
      → IsAllocator a
      → m.c ≡ c
      → Held m.c w.heap
      → IsPlaced g m w (move_pointer a g c m w)
  unfolding move_pointer moved copy_to Held
  move_pointer-IsPlaced g m w none laws own held = placed (stays-IsRelocated g m w (inl own) held)
  move_pointer-IsPlaced g m w (some p) laws own held =
      let live : Held (some p) w.heap = subst (λ c. Held c w.heap) own held in
      elim (Option-cases (acquire a g m.n_elements w.heap)) [
        | inl e ↦ rw e (out_of_memory e)
        | inr ((some q, k), e) ↦ rw e (
            placed (
              moved-IsRelocated g p q m w k laws own live
                (acquire-malloc g m.n_elements w.heap (some q) k e)))
        | inr ((none, k), e) ↦ rw e (
            placed (
              dropped-IsRelocated g p m w k laws own
                (acquire-malloc g m.n_elements w.heap none k e)))
      ]

  either-IsPlaced :
      (g b : Bool) (m : ManagedMemory) (w : World H) (o p : Option (ManagedMemory × World H))
      → (b ≡ true → IsPlaced g m w o)
      → (b ≡ false → IsPlaced g m w p)
      → IsPlaced g m w (if b then o else p)
  either-IsPlaced g true m w o p h k = h refl
  either-IsPlaced g false m w o p h k = k refl

  -- Where the allocator keeps its promises, copies of n elements give just the first n, and the
  -- block of an object is in use, toCpu and toGpu end with the object on their side (or with no
  -- block), of the same category and size, with a block in use that holds the same value for each
  -- of its elements, and leave all other blocks in use as they are; or the memory of that side is
  -- out.
  pub moves-IsPlaced :
      (m : ManagedMemory) (w : World H)
      → IsAllocator a
      → Held m.c w.heap
      → IsPlaced false m w (to_cpu a m w) × IsPlaced true m w (to_gpu a m w)
  unfolding to_cpu to_gpu
  moves-IsPlaced m w laws held = (
    either-IsPlaced false m.on_gpu m w _ _ (λ _. move_pointer-IsPlaced false m w m.c laws refl held)
        (λ e. placed (stays-IsRelocated false m w (inr e) held)),
    either-IsPlaced true m.on_gpu m w _ _ (λ e. placed (stays-IsRelocated true m w (inr e) held))
        (λ _. move_pointer-IsPlaced true m w m.c laws refl held),
  )
