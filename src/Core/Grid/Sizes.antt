-- ===== src/Core/Grid/Sizes.antt =====
-- jdftx/core/Util.h, `fftSuitable`, jdftx/core/scalar.h, `ceildiv`, and the choice of the size of
-- the box in `GridInfo::initialize` (jdftx/core/GridInfo.cpp), from an integer basis of sizes that
-- the symmetries allow. The loops take fuel, and yield none without enough of it.
pub mod Smooth
pub mod Search
pub mod Scale
pub mod Basis
use python_jdftx.Common.{
  ℕ, zero, suc, ◌+◌, ◌-◌, ◌*◌, ◌/◌, ◌%◌, Bool, true, false, ◌&&◌, Option, none, some, ltb, ◌==◌,
  if◌then◌else◌,
}
use python_jdftx.Core.Grid.{Vector3}

-- `while(tmpN % p == 0) tmpN /= p`.
unfoldable pub strip : (p fuel n : ℕ) → Option ℕ
strip p zero n = none
strip p (suc fuel) n = elim (n % p == 0) [ true ↦ strip p fuel (n / p) | false ↦ some n ]

infixl 5 ◌>>=◌
abbrev pub ◌>>=◌ {ℓ κ} : {A : Type ℓ} {B : Type κ} → Option A → (A → Option B) → Option B
none >>= f = none
some a >>= f = f a

-- The loops over the primes 2, 3, 5 and 7, and the test of what is left.
unfoldable pub fft_suitable : (fuel n : ℕ) → Option Bool
fft_suitable fuel n = strip 2 fuel n >>= λ a.
    strip 3 fuel a >>= λ b. strip 5 fuel b >>= λ c. strip 7 fuel c >>= λ d. some (d == 1)

-- `while(!fftSuitable(scaleSb)) scaleSb += 2`. A positive number is fuel enough for its own test, and
-- for 0 no fuel is.
unfoldable pub next_suitable : (fuel n : ℕ) → Option ℕ
next_suitable zero n = none
next_suitable (suc fuel) n = fft_suitable n n >>= λ suitable. elim suitable [
  | true ↦ some n
  | false ↦ next_suitable fuel (n + 2)
]

unfoldable pub ceildiv : ℕ → ℕ → ℕ
ceildiv num den = (num + den - 1) / den

-- `int s = 2*ceildiv(Smin[k], 2*Sb[k])`, and the largest of those.
unfoldable pub raise_scale : (scale smin sb : ℕ) → ℕ
raise_scale scale smin sb =
    let s = 2 * ceildiv smin (2 * sb) in if sb == 0 then scale else if ltb scale s then s else scale

unfoldable pub least_scale : Vector3 ℕ → Vector3 ℕ → ℕ
least_scale smin sb = raise_scale (raise_scale (raise_scale 0 smin.x sb.x) smin.y sb.y) smin.z sb.z

-- Whether an entry of the basis that is not zero is suitable.
unfoldable pub entry_suitable : ℕ → Option Bool
entry_suitable sb = if sb == 0 then some true else fft_suitable sb sb

-- `if(Sb[k]) Sb[k] = 1`, for a basis with an entry that is not suitable.
unfoldable pub fallback : Bool → ℕ → ℕ
fallback true sb = sb
fallback false sb = if sb == 0 then 0 else 1

-- "Check FFT suitability of the integers in Sb".
unfoldable pub suitable_basis : Vector3 ℕ → Option (Vector3 ℕ)
suitable_basis sb = entry_suitable sb.x >>= λ x. entry_suitable sb.y >>= λ y.
    entry_suitable sb.z >>= λ z.
    let all = x && (y && z) in
    some (record { x = fallback all sb.x; y = fallback all sb.y; z = fallback all sb.z })

-- The size for one entry of the basis: `Sb *= scaleSb`, with the smallest suitable scale.
unfoldable pub basis_size : (fuel : ℕ) → Vector3 ℕ → Vector3 ℕ → Option (Vector3 ℕ)
basis_size fuel smin basis = suitable_basis basis >>= λ sb.
    next_suitable fuel (least_scale smin sb) >>= λ scale.
    some (record { x = sb.x * scale; y = sb.y * scale; z = sb.z * scale })
