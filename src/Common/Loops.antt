-- ===== src/Common/Loops.antt =====
-- Counted loops over a state, and rules for what holds after them.
use Prim.Native.Nat.{ℕ, zero, suc, ◌+◌, ◌≤◌, ◌<◌}
use mathlib.Core.Path.{sym, subst}
use mathlib.Core.Logic.{◌≢◌}
use native.Mathlib.Omega.{arith}
use native.Mathlib.Decide.{ℕ_discrete}

-- `for(int i=first; i<first+count; i++) body(i)`.
unfoldable pub loop {ℓ} : {S : Type ℓ} → (count first : ℕ) → (ℕ → S → S) → S → S
loop zero i body s = s
loop (suc n) i body s = loop n (suc i) body (body i s)

module _ {ℓ κ} {S : Type ℓ} (P : S → Type κ) (body : ℕ → S → S) where
  pub loop_keeps :
      (n i stop : ℕ)
      → i + n ≤ stop
      → ((k : ℕ) → k < stop → (s : S) → P s → P (body k s))
      → (s : S) → P s
      → P (loop n i body s)
  unfolding loop
  loop_keeps zero i stop h keep s p = p
  loop_keeps (suc n) i stop h keep s p =
      loop_keeps n (suc i) stop (omega arith) keep (body i s) (keep i (omega arith) s p)

  -- What one round brings about and all rounds keep.
  pub loop_hits :
      (n i stop at : ℕ)
      → i + n ≤ stop
      → i ≤ at
      → at < i + n
      → ((k : ℕ) → k < stop → (s : S) → P s → P (body k s))
      → ((s : S) → P (body at s))
      → (s : S) → P (loop n i body s)
  unfolding loop
  loop_hits zero i stop at h low high keep hit s = absurd (omega arith)
  loop_hits (suc n) i stop at h low high keep hit s = elim (ℕ_discrete i at) [
    | yes e ↦
        loop_keeps n (suc i) stop (omega arith) keep (body i s)
          (subst (λ k. P (body k s)) (sym e) (hit s))
    | no d ↦
        loop_hits n (suc i) stop at (omega arith) (omega arith) (omega arith) keep hit (body i s)
  ]

-- One round turns `P` into `Q`, and all other rounds keep both.
module _ {ℓ κ} {S : Type ℓ} (P Q : S → Type κ) (body : ℕ → S → S) (at : ℕ) where
  loop_after :
      (n i stop : ℕ)
      → i + n ≤ stop
      → at < i
      → ((k : ℕ) → k < stop → k ≢ at → (s : S) → Q s → Q (body k s))
      → (s : S) → Q s
      → Q (loop n i body s)
  unfolding loop
  loop_after zero i stop h past after s q = q
  loop_after (suc n) i stop h past after s q =
      let apart : i ≢ at = omega arith in
      loop_after n (suc i) stop (omega arith) (omega arith) after (body i s)
        (after i (omega arith) apart s q)

  pub loop_once :
      (n i stop : ℕ)
      → i + n ≤ stop
      → i ≤ at
      → at < i + n
      → ((k : ℕ) → k < stop → k ≢ at → (s : S) → P s → P (body k s))
      → ((k : ℕ) → k < stop → k ≢ at → (s : S) → Q s → Q (body k s))
      → ((s : S) → P s → Q (body at s))
      → (s : S) → P s
      → Q (loop n i body s)
  unfolding loop
  loop_once zero i stop h low high before after once s p = absurd (omega arith)
  loop_once (suc n) i stop h low high before after once s p = elim (ℕ_discrete i at) [
    | yes e ↦
        loop_after n (suc i) stop (omega arith) (omega (arith, e)) after (body i s)
          (subst (λ k. Q (body k s)) (sym e) (once s p))
    | no d ↦
        loop_once n (suc i) stop (omega arith) (omega (arith, d)) (omega arith) before after once
          (body i s) (before i (omega arith) d s p)
  ]
