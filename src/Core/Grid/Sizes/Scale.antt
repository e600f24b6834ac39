-- ===== src/Core/Grid/Sizes/Scale.antt =====
-- jdftx/core/GridInfo.cpp, `GridInfo::initialize`: the scale that a basis of sizes needs.
use native.Mathlib.Nat.{div-add-mod, mod-lt}
use python_jdftx.Common.{
  ℕ, zero, suc, ◌+◌, ◌-◌, ◌*◌, ◌/◌, ◌%◌, ◌<◌, ◌≤◌, ◌≡◌, refl, ◌==◌, leb, ltb, arith, Bool-cases,
  inl, inr,
}
use python_jdftx.Core.Grid.{Vector3}
use python_jdftx.Core.Grid.Sizes.{ceildiv, raise_scale, least_scale}

-- Twice a quotient that is rounded up, as a multiple of the entry.
enough : (smin sb : ℕ) → 0 < sb → smin ≤ sb * (2 * ceildiv smin (2 * sb))
unfolding ceildiv
enough smin sb h =
    let n = smin + 2 * sb - 1 in
    let parts = div-add-mod n (2 * sb) in
    let less = mod-lt n {m = 2 * sb} (omega arith) in
    let turned : sb * (2 * (n / (2 * sb))) ≡ 2 * sb * (n / (2 * sb)) = grind arith in omega arith

sides : (a b : ℕ) → 0 < a → 0 < b → a + b ≤ a * b + 1
sides zero b ha hb = absurd (omega arith)
sides (suc a) zero ha hb = absurd (omega arith)
sides (suc a) (suc b) ha hb =
    let apart : suc a * suc b ≡ a * b + a + b + 1 = grind arith in omega arith

-- A quotient that is rounded up is not too large.
not_much : (smin sb : ℕ) → 0 < sb → 0 < smin → 2 * ceildiv smin (2 * sb) ≤ smin + 1
unfolding ceildiv
not_much smin sb h hs =
    let q = (smin + 2 * sb - 1) / (2 * sb) in
    let parts = div-add-mod (smin + 2 * sb - 1) (2 * sb) in
    let turned : 2 * sb * q ≡ 2 * (sb * q) = grind arith in
    elim (Bool-cases (leb 1 q)) [
      | inl e ↦ let wide = sides sb q h (ground arith) in omega arith
      | inr e ↦ let none_there : q ≡ 0 = ground arith in omega arith
    ]

wider : (a b c : ℕ) → b ≤ c → a * b ≤ a * c
wider zero b c h = omega arith
wider (suc a) b c h = let rest = wider a b c h in omega arith

-- What a round of the search for the least scale leaves.
record IsRaised (scale smin sb : ℕ) : Type 0 where
  grown : scale ≤ raise_scale scale smin sb
  even : raise_scale scale smin sb % 2 ≡ 0
  covers : 0 < sb → smin ≤ sb * raise_scale scale smin sb
  bounded : (b : ℕ) → scale ≤ b → smin < b → raise_scale scale smin sb ≤ b

raise_scale_lem : (scale smin sb : ℕ) → 0 < smin → scale % 2 ≡ 0 → IsRaised scale smin sb
unfolding raise_scale
raise_scale_lem scale smin sb hs h = elim (Bool-cases (sb == 0)) [
  | inl e ↦
      let same : raise_scale scale smin sb ≡ scale = rw e refl in
      record {
        grown = omega arith;
        even = omega arith;
        covers = λ h. ground arith;
        bounded = λ b h _. omega arith;
      }
  | inr e ↦
      let there : 0 < sb = ground arith in
      let c = enough smin sb there in
      let m = not_much smin sb there hs in
      elim (Bool-cases (ltb scale (2 * ceildiv smin (2 * sb)))) [
        | inl f ↦
            let new : raise_scale scale smin sb ≡ 2 * ceildiv smin (2 * sb) = rw (e, f) refl in
            record {
              grown = ground arith;
              even = omega arith;
              covers = λ _. rw new c;
              bounded = λ b h k. omega arith;
            }
        | inr f ↦
            let old : raise_scale scale smin sb ≡ scale = rw (e, f) refl in
            let more : sb * (2 * ceildiv smin (2 * sb)) ≤ sb * scale =
              wider sb (2 * ceildiv smin (2 * sb)) scale (ground arith) in
            record {
              grown = omega arith;
              even = omega arith;
              covers = λ _. rw old (omega arith);
              bounded = λ b h k. omega arith;
            }
      ]
]

pub scale_positive : (smin sb r : ℕ) → 0 < smin → smin ≤ sb * r → 0 < r
scale_positive smin sb zero h k = let nothing : sb * 0 ≡ 0 = grind arith in absurd (omega arith)
scale_positive smin sb (suc r) h k = omega arith

-- A scale that is larger covers what the smaller one covers.
pub still_covers : (smin sb r scale : ℕ) → smin ≤ sb * r → r ≤ scale → smin ≤ sb * scale
still_covers smin sb r scale h k = let more = wider sb r scale k in omega arith

-- What the largest scale of a basis is.
pub record IsScaled (smin sb : Vector3 ℕ) : Type 0 where
  pub even : least_scale smin sb % 2 ≡ 0
  pub covers_x : 0 < sb.x → smin.x ≤ sb.x * least_scale smin sb
  pub covers_y : 0 < sb.y → smin.y ≤ sb.y * least_scale smin sb
  pub covers_z : 0 < sb.z → smin.z ≤ sb.z * least_scale smin sb
  pub bounded : (b : ℕ) → smin.x < b → smin.y < b → smin.z < b → least_scale smin sb ≤ b

pub least_scale_lem :
    (smin sb : Vector3 ℕ) → 0 < smin.x → 0 < smin.y → 0 < smin.z → IsScaled smin sb
unfolding least_scale
least_scale_lem smin sb hx hy hz =
    let a = raise_scale_lem 0 smin.x sb.x hx refl in
    let ra = raise_scale 0 smin.x sb.x in
    let b = raise_scale_lem ra smin.y sb.y hy a.even in
    let rb = raise_scale ra smin.y sb.y in
    let c = raise_scale_lem rb smin.z sb.z hz b.even in
    let rc = raise_scale rb smin.z sb.z in
    let b_grown : ra ≤ rb = b.grown in
    let c_grown : rb ≤ rc = c.grown in
    record {
      even = c.even;
      covers_x = λ k. still_covers smin.x sb.x ra rc (a.covers k) (omega arith);
      covers_y = λ k. still_covers smin.y sb.y rb rc (b.covers k) c_grown;
      covers_z = c.covers;
      bounded = λ s x y z. c.bounded s (b.bounded s (a.bounded s (omega arith) x) y) z;
    }
