-- ===== src/Common/Nests.antt =====
-- Loops within loops over ranges that start at 0.
use Prim.Native.Nat.{ℕ, zero, suc, ◌+◌, ◌*◌, ◌≤◌, ◌<◌}
use mathlib.Core.Path.{◌≡◌, refl, ap, ◌∙◌}
use native.Mathlib.Omega.{arith}
use python_jdftx.Common.Loops.{loop}

module _ {S : Type 0} where
  pub loop_cong :
      (f g : ℕ → S → S) (count i stop : ℕ)
      → i + count ≤ stop
      → ((k : ℕ) (s : S) → i ≤ k → k < stop → f k s ≡ g k s)
      → (s : S) → loop count i f s ≡ loop count i g s
  unfolding loop
  loop_cong f g zero i stop h same s = refl
  loop_cong f g (suc count) i stop h same s =
      ap (loop count (suc i) f) (same i s (omega arith) (omega arith))
      ∙ loop_cong f g count (suc i) stop (omega arith) (λ k t low high. same k t (omega arith) high)
          (g i s)

  loop_shift :
      (f : ℕ → S → S) (off count i : ℕ) (s : S)
      → loop count i (λ k. f (off + k)) s ≡ loop count (off + i) f s
  unfolding loop
  loop_shift f off zero i s = refl
  loop_shift f off (suc count) i s =
      let next : off + suc i ≡ suc (off + i) = omega arith in
      loop_shift f off count (suc i) (f (off + i) s) ∙ ap (λ j. loop count j f (f (off + i) s)) next

  loop_split :
      (f : ℕ → S → S) (m n i : ℕ) (s : S) → loop n (i + m) f (loop m i f s) ≡ loop (m + n) i f s
  unfolding loop
  loop_split f zero n i s =
      let start : i + 0 ≡ i = omega arith in
      let count : n ≡ 0 + n = omega arith in
      ap (λ j. loop n j f s) start ∙ ap (λ k. loop k i f s) count
  loop_split f (suc m) n i s =
      let start : i + suc m ≡ suc i + m = omega arith in
      let count : suc (m + n) ≡ suc m + n = omega arith in
      ap (λ j. loop n j f (loop m (suc i) f (f i s))) start
      ∙ loop_split f m n (suc i) (f i s)
      ∙ ap (λ k. loop k i f s) count

  nest_from :
      (f : ℕ → S → S) (b a x : ℕ) (s : S)
      → loop a x (λ i. loop b 0 (λ j. f (b * i + j))) s ≡ loop (b * a) (b * x) f s
  unfolding loop
  nest_from f b zero x s =
      let none_left : 0 ≡ b * 0 = omega arith in ap (λ k. loop k (b * x) f s) none_left
  nest_from f b (suc a) x s =
      let row = loop_shift f (b * x) b 0 s in
      let at : b * x + 0 ≡ b * x = omega arith in
      let next : b * suc x ≡ b * x + b = grind arith in
      let count : b + b * a ≡ b * suc a = grind arith in
      nest_from f b a (suc x) (loop b 0 (λ j. f (b * x + j)) s)
      ∙ ap (loop (b * a) (b * suc x) f) (row ∙ ap (λ k. loop b k f s) at)
      ∙ ap (λ k. loop (b * a) k f (loop b (b * x) f s)) next
      ∙ loop_split f b (b * a) (b * x) s
      ∙ ap (λ k. loop k (b * x) f s) count

  -- A loop of `a` loops of `b` rounds is one loop.
  pub loop_nest :
      (f : ℕ → S → S) (g : ℕ → ℕ → S → S) (a b : ℕ)
      → ((i j : ℕ) (s : S) → i < a → j < b → g i j s ≡ f (b * i + j) s)
      → (s : S) → loop a 0 (λ i. loop b 0 (g i)) s ≡ loop (b * a) 0 f s
  loop_nest f g a b same s =
      let start : b * 0 ≡ 0 = omega arith in
      loop_cong (λ i. loop b 0 (g i)) (λ i. loop b 0 (λ j. f (b * i + j))) a 0 a (omega arith)
        (λ i t low high.
          loop_cong (g i) (λ j. f (b * i + j)) b 0 b (omega arith) (λ j u l h. same i j u high h) t)
        s
      ∙ nest_from f b a 0 s
      ∙ ap (λ k. loop (b * a) k f s) start
