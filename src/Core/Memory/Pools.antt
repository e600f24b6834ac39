-- ===== src/Core/Memory/Pools.antt =====
-- jdftx/core/ManagedMemory.cpp: the objects of a program, and what its operations do to them.
use python_jdftx.Common.{
  ℕ, ◌≡◌, refl, subst, Bool, true, false, List, [], ◌∷◌, ◌++◌, Option, none, some, ◌==◌,
  if◌then◌else◌, arith, Bool-cases, inl, inr,
}
use python_jdftx.Core.Outcome.{Bytes}
use python_jdftx.Core.Memory.{
  Allocator, Report, ManagedMemory, World, empty_memory, mem_free, is_required, allocated, mem_init,
  mem_move, acquire, moved, move_pointer, to_cpu, to_gpu,
}
use python_jdftx.Core.Memory.Accounts.{
  constructed-Agrees, destroyed-Agrees, swapped-Agrees, held, Agrees, remove_report-Agrees,
  add_report-Agrees, same-Agrees,
}

pub record Pool (H : Type 0) : Type 0 where
  pub objects : List ManagedMemory
  pub world : World H

module _ {H D : Type 0} (a : Allocator H D) where
  -- The operations, on any of the objects: a move needs two of them.
  pub data Step (s : Pool H) : Pool H → Type 0 where
    constructed : Step s (record { objects = empty_memory ∷ s.objects; world = s.world })
    destroyed :
        (xs ys : List ManagedMemory) (m : ManagedMemory)
        → s.objects ≡ xs ++ m ∷ ys
        → Step s (record { objects = xs ++ ys; world = (mem_free a m s.world).1 })
    freed :
        (xs ys : List ManagedMemory) (m : ManagedMemory)
        → s.objects ≡ xs ++ m ∷ ys
        → Step s (record {
          objects = xs ++ (mem_free a m s.world).0 ∷ ys;
          world = (mem_free a m s.world).1;
        })
    inited :
        (xs ys : List ManagedMemory) (m m2 : ManagedMemory) (w : World H) (category : Bytes) (n : ℕ)
        (on_gpu : Bool)
        → s.objects ≡ xs ++ m ∷ ys
        → mem_init a category n on_gpu m s.world ≡ some (m2, w)
        → Step s (record { objects = xs ++ m2 ∷ ys; world = w })
    stolen :
        (xs ys zs : List ManagedMemory) (this other : ManagedMemory)
        → s.objects ≡ xs ++ this ∷ (ys ++ other ∷ zs)
        → Step s (record {
          objects = xs ++ (mem_move a this other).0 ∷ (ys ++ (mem_move a this other).1 ∷ zs);
          world = s.world;
        })
    to_host :
        (xs ys : List ManagedMemory) (m m2 : ManagedMemory) (w : World H)
        → s.objects ≡ xs ++ m ∷ ys
        → to_cpu a m s.world ≡ some (m2, w)
        → Step s (record { objects = xs ++ m2 ∷ ys; world = w })
    to_device :
        (xs ys : List ManagedMemory) (m m2 : ManagedMemory) (w : World H)
        → s.objects ≡ xs ++ m ∷ ys
        → to_gpu a m s.world ≡ some (m2, w)
        → Step s (record { objects = xs ++ m2 ∷ ys; world = w })

  -- The pools that a program comes to, which begins with no objects and an empty report.
  pub data Reach : Pool H → Type 0 where
    start :
        (h : H)
        → Reach (record {
          objects = [];
          world = record {
            heap = h;
            report = record {
              usage_map = λ _. record { current = 0; peak = 0 };
              usage_total = record { current = 0; peak = 0 };
            };
          };
        })
    later : {s t : Pool H} → Reach s → Step s t → Reach t

  -- What `memFree` does to an object and the report.
  record IsFreed (xs ys : List ManagedMemory) (m : ManagedMemory) (w : World H) : Type 0 where
    nothing : (mem_free a m w).0.n_elements ≡ 0
    agrees : Agrees (mem_free a m w).1.report (xs ++ (mem_free a m w).0 ∷ ys)

  mem_free-IsFreed :
      (xs ys : List ManagedMemory) (m : ManagedMemory) (w : World H)
      → Agrees w.report (xs ++ m ∷ ys)
      → IsFreed xs ys m w
  unfolding mem_free
  mem_free-IsFreed xs ys m w h = elim (Bool-cases (m.n_elements == 0)) [
    | inl e ↦ record { nothing = rw e (ground arith); agrees = rw e h }
    | inr e ↦ record {
      nothing = rw e refl;
      agrees = rw e (remove_report-Agrees w.report xs m _ ys refl h);
    }
  ]

  -- What holds of a result, if there is one.
  abbrev Kept : (xs ys : List ManagedMemory) → Option (ManagedMemory × World H) → Type 0
  Kept xs ys none = Unit
  Kept xs ys (some (m, w)) = Agrees w.report (xs ++ m ∷ ys)

  allocated-Kept :
      (xs ys : List ManagedMemory) (m : ManagedMemory) (r : Report) (category : Bytes) (n : ℕ)
      (on_gpu : Bool) (o : Option (Option ℕ × H))
      → m.n_elements ≡ 0
      → Agrees r (xs ++ m ∷ ys)
      → Kept xs ys (allocated a category n on_gpu r o)
  unfolding allocated
  allocated-Kept xs ys m r category n on_gpu none nothing h = tt
  allocated-Kept xs ys m r category n on_gpu (some (p, k)) nothing h =
      let full : ManagedMemory = record {
        category = category;
        n_elements = n;
        c = p;
        on_gpu = on_gpu;
      } in
      add_report-Agrees r xs m full ys nothing h

  mem_init-Kept :
      (xs ys : List ManagedMemory) (m : ManagedMemory) (w : World H) (category : Bytes) (n : ℕ)
      (on_gpu : Bool)
      → Agrees w.report (xs ++ m ∷ ys)
      → Kept xs ys (mem_init a category n on_gpu m w)
  unfolding mem_init
  mem_init-Kept xs ys m w category n on_gpu h =
      elim (Bool-cases (is_required a category n on_gpu m)) [
        | inl e ↦ rw e h
        | inr e ↦
            let f = mem_free-IsFreed xs ys m w h in
            rw e (
              allocated-Kept xs ys (mem_free a m w).0 (mem_free a m w).1.report category n on_gpu
                (acquire a on_gpu n (mem_free a m w).1.heap) f.nothing f.agrees)
      ]

  moved-Kept :
      (on_gpu : Bool) (xs ys : List ManagedMemory) (p : ℕ) (m : ManagedMemory) (w : World H)
      (o : Option (Option ℕ × H))
      → Agrees w.report (xs ++ m ∷ ys)
      → Kept xs ys (moved a on_gpu p m w o)
  unfolding moved
  moved-Kept on_gpu xs ys p m w none h = tt
  moved-Kept on_gpu xs ys p m w (some (q, k)) h =
      same-Agrees w.report xs m (record m { c = q; on_gpu = on_gpu }) ys refl refl h

  move_pointer-Kept :
      (on_gpu : Bool) (xs ys : List ManagedMemory) (c : Option ℕ) (m : ManagedMemory) (w : World H)
      → Agrees w.report (xs ++ m ∷ ys)
      → Kept xs ys (move_pointer a on_gpu c m w)
  unfolding move_pointer
  move_pointer-Kept on_gpu xs ys none m w h = h
  move_pointer-Kept on_gpu xs ys (some p) m w h =
      moved-Kept on_gpu xs ys p m w (acquire a on_gpu m.n_elements w.heap) h

  either-Kept :
      (xs ys : List ManagedMemory) (o p : Option (ManagedMemory × World H)) (b : Bool)
      → Kept xs ys o
      → Kept xs ys p
      → Kept xs ys (if b then o else p)
  either-Kept xs ys o p true h k = h
  either-Kept xs ys o p false h k = k

  to_cpu-Kept :
      (xs ys : List ManagedMemory) (m : ManagedMemory) (w : World H)
      → Agrees w.report (xs ++ m ∷ ys)
      → Kept xs ys (to_cpu a m w)
  unfolding to_cpu
  to_cpu-Kept xs ys m w h =
      either-Kept xs ys _ _ m.on_gpu (move_pointer-Kept false xs ys m.c m w h) h

  to_gpu-Kept :
      (xs ys : List ManagedMemory) (m : ManagedMemory) (w : World H)
      → Agrees w.report (xs ++ m ∷ ys)
      → Kept xs ys (to_gpu a m w)
  unfolding to_gpu
  to_gpu-Kept xs ys m w h =
      either-Kept xs ys _ _ m.on_gpu h (move_pointer-Kept true xs ys m.c m w h)

  Step-Agrees :
      {s t : Pool H} → Step s t → Agrees s.world.report s.objects → Agrees t.world.report t.objects
  unfolding mem_move
  Step-Agrees {s = s} constructed h = constructed-Agrees s.world.report s.objects h
  Step-Agrees {s = s} (destroyed xs ys m e) h =
      let f = mem_free-IsFreed xs ys m s.world (subst (Agrees s.world.report) e h) in
      destroyed-Agrees (mem_free a m s.world).1.report xs (mem_free a m s.world).0 ys f.nothing
        f.agrees
  Step-Agrees {s = s} (freed xs ys m e) h =
      (mem_free-IsFreed xs ys m s.world (subst (Agrees s.world.report) e h)).agrees
  Step-Agrees {s = s} (inited xs ys m m2 w category n on_gpu e f) h =
      subst (Kept xs ys) f
        (mem_init-Kept xs ys m s.world category n on_gpu (subst (Agrees s.world.report) e h))
  Step-Agrees {s = s} (stolen xs ys zs this other e) h =
      swapped-Agrees s.world.report xs ys zs this other (subst (Agrees s.world.report) e h)
  Step-Agrees {s = s} (to_host xs ys m m2 w e f) h =
      subst (Kept xs ys) f (to_cpu-Kept xs ys m s.world (subst (Agrees s.world.report) e h))
  Step-Agrees {s = s} (to_device xs ys m m2 w e f) h =
      subst (Kept xs ys) f (to_gpu-Kept xs ys m s.world (subst (Agrees s.world.report) e h))

  -- Whatever a program does with its objects, the report agrees with them: the current usage, of
  -- all objects and of each category, in any case of its name, is the number of elements that
  -- they hold, modulo 2 ^ 64.
  pub Reach-Agrees : {s : Pool H} → Reach s → Agrees s.world.report s.objects
  unfolding held
  Reach-Agrees (start h) = record { total = refl; categories = λ c. refl }
  Reach-Agrees (later r step) = Step-Agrees step (Reach-Agrees r)
