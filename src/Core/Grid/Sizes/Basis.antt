-- ===== src/Core/Grid/Sizes/Basis.antt =====
-- jdftx/core/GridInfo.cpp, `GridInfo::initialize`: the size of the box for a basis of sizes.
use python_jdftx.Common.{
  ℕ, zero, suc, ◌+◌, ◌*◌, ◌/◌, ◌%◌, ◌<◌, ◌≤◌, ◌≡◌, refl, ap, ◌∙◌, Bool, true, false, ◌&&◌, some,
  ◌==◌, ltb, arith, Bool-cases, inl, inr,
}
use python_jdftx.Core.Grid.{Vector3}
use python_jdftx.Core.Grid.Sizes.{least_scale, entry_suitable, fallback, suitable_basis, basis_size}
use python_jdftx.Core.Grid.Sizes.Smooth.{times, IsSmooth, fft_suitable-IsSmooth}
use python_jdftx.Core.Grid.Sizes.Scale.{scale_positive, still_covers, least_scale_lem}
use python_jdftx.Core.Grid.Sizes.Search.{next_suitable-IsClosest}

times-mul : (p k l m n : ℕ) → times p (k + l) (m * n) ≡ times p k m * times p l n
unfolding times
times-mul p zero zero m n = refl
times-mul p zero (suc l) m n = let rest = times-mul p zero l m n in grind arith
times-mul p (suc k) l m n = let rest = times-mul p k l m n in grind arith

mul-IsSmooth : (m n : ℕ) → IsSmooth m → IsSmooth n → IsSmooth (m * n)
mul-IsSmooth m n a b =
    let sevens = times-mul 7 a.sevens b.sevens 1 1 in
    let fives = times-mul 5 a.fives b.fives (times 7 a.sevens 1) (times 7 b.sevens 1) in
    let threes =
      times-mul 3 a.threes b.threes (times 5 a.fives (times 7 a.sevens 1))
        (times 5 b.fives (times 7 b.sevens 1)) in
    let twos =
      times-mul 2 a.twos b.twos (times 3 a.threes (times 5 a.fives (times 7 a.sevens 1)))
        (times 3 b.threes (times 5 b.fives (times 7 b.sevens 1))) in
    record {
      twos = a.twos + b.twos;
      threes = a.threes + b.threes;
      fives = a.fives + b.fives;
      sevens = a.sevens + b.sevens;
      product = rw (a.product, b.product, sevens, fives, threes, twos) refl;
    }

one-IsSmooth : IsSmooth 1
unfolding times
one-IsSmooth = record { twos = 0; threes = 0; fives = 0; sevens = 0; product = refl }

-- An entry of the basis, after a test that all entries passed, or after the fallback.
data IsEntry (old new : ℕ) : Type 0 where
  absent : old ≡ 0 → new ≡ 0 → IsEntry old new
  usable : 0 < old → 0 < new → IsSmooth new → IsEntry old new

record IsTested (sb : ℕ) : Type 0 where
  answer : Bool
  found : entry_suitable sb ≡ some answer
  good : answer ≡ true → IsEntry sb sb

entry_suitable_lem : (sb : ℕ) → IsTested sb
unfolding entry_suitable
entry_suitable_lem sb = elim (Bool-cases (sb == 0)) [
  | inl e ↦ record {
    answer = true;
    found = rw e refl;
    good = λ _. absent (ground arith) (ground arith);
  }
  | inr e ↦
      let d = fft_suitable-IsSmooth sb sb (ground arith) (omega arith) in
      record {
        answer = d.answer;
        found = rw (e, d.found) refl;
        good = λ t. usable (ground arith) (ground arith) (d.right.0 t);
      }
]

fallback_lem : (all : Bool) (sb : ℕ) → (all ≡ true → IsEntry sb sb) → IsEntry sb (fallback all sb)
unfolding fallback
fallback_lem true sb good = good refl
fallback_lem false sb good = elim (Bool-cases (sb == 0)) [
  | inl e ↦ rw e (absent (ground arith) refl)
  | inr e ↦ rw e (usable (ground arith) (omega arith) one-IsSmooth)
]

-- What the test of a basis leaves.
record IsUsable (sb : Vector3 ℕ) : Type 0 where
  new : Vector3 ℕ
  found : suitable_basis sb ≡ some new
  first : IsEntry sb.x new.x
  second : IsEntry sb.y new.y
  third : IsEntry sb.z new.z

and_first : (a b : Bool) → a && b ≡ true → a ≡ true
and_first a b h = ground arith

and_second : (a b : Bool) → a && b ≡ true → b ≡ true
and_second a b h = ground arith

suitable_basis_lem : (sb : Vector3 ℕ) → IsUsable sb
unfolding suitable_basis
suitable_basis_lem sb =
    let a = entry_suitable_lem sb.x in
    let b = entry_suitable_lem sb.y in
    let c = entry_suitable_lem sb.z in
    let all = a.answer && (b.answer && c.answer) in
    record {
      new = record { x = fallback all sb.x; y = fallback all sb.y; z = fallback all sb.z };
      found = rw (a.found, b.found, c.found) refl;
      first = fallback_lem all sb.x (λ t. a.good (ground arith));
      second = fallback_lem all sb.y (λ t. b.good (ground arith));
      third = fallback_lem all sb.z (λ t. c.good (ground arith));
    }

-- A side of the box: 0 where the basis has no entry, else large enough, even and suitable.
pub data IsSide (smin old size : ℕ) : Type 0 where
  left_out : old ≡ 0 → size ≡ 0 → IsSide smin old size
  covered : 0 < old → smin ≤ size → size % 2 ≡ 0 → IsSmooth size → IsSide smin old size

side_lem :
    (smin old new scale : ℕ)
    → (0 < new → smin ≤ new * scale)
    → scale % 2 ≡ 0
    → IsSmooth scale
    → IsEntry old new
    → IsSide smin old (new * scale)
side_lem smin old new scale covers even smooth (absent h k) =
    let nothing : 0 * scale ≡ 0 = grind arith in left_out h (rw k nothing)
side_lem smin old new scale covers even smooth (usable h k s) =
    let parts : scale ≡ 2 * (scale / 2) = omega arith in
    let turned : new * (2 * (scale / 2)) ≡ 2 * (new * (scale / 2)) = grind arith in
    let whole : new * scale ≡ 2 * (new * (scale / 2)) = ap (λ x. new * x) parts ∙ turned in
    covered h (covers k) (omega arith) (mul-IsSmooth new scale s smooth)

-- The size that is found for a basis.
pub record IsSized (fuel : ℕ) (smin basis : Vector3 ℕ) : Type 0 where
  pub size : Vector3 ℕ
  pub found : basis_size fuel smin basis ≡ some size
  pub first : IsSide smin.x basis.x size.x
  pub second : IsSide smin.y basis.y size.y
  pub third : IsSide smin.z basis.z size.z

entry_positive : (old new : ℕ) → IsEntry old new → 0 < old → 0 < new
entry_positive old new (absent h k) g = absurd (omega arith)
entry_positive old new (usable h k s) g = k

least_scale-positive :
    (smin old new : Vector3 ℕ)
    → 0 < smin.x
    → 0 < smin.y
    → 0 < smin.z
    → IsEntry old.x new.x
    → IsEntry old.y new.y
    → IsEntry old.z new.z
    → 0 < old.x + old.y + old.z
    → 0 < least_scale smin new
least_scale-positive smin old new hx hy hz ex ey ez h =
    let a = least_scale_lem smin new hx hy hz in
    let r = least_scale smin new in
    elim (Bool-cases (ltb 0 old.x)) [
      | inl e ↦
          scale_positive smin.x new.x r hx
            (a.covers_x (entry_positive old.x new.x ex (ground arith)))
      | inr e ↦ elim (Bool-cases (ltb 0 old.y)) [
        | inl f ↦
            scale_positive smin.y new.y r hy
              (a.covers_y (entry_positive old.y new.y ey (ground arith)))
        | inr f ↦
            let last : 0 < old.z = ground arith in
            scale_positive smin.z new.z r hz (a.covers_z (entry_positive old.z new.z ez last))
      ]
    ]

-- With positive minimal sizes, an entry of the basis that is not 0, and fuel for the sum of the
-- minimal sizes, the search for the size of the box ends: a side of an entry that is not 0 is at
-- least the minimal size, even, and a product of powers of 2, 3, 5 and 7; the others are 0.
pub basis_size-IsSized :
    (fuel : ℕ) (smin basis : Vector3 ℕ)
    → 0 < smin.x
    → 0 < smin.y
    → 0 < smin.z
    → 0 < basis.x + basis.y + basis.z
    → smin.x + smin.y + smin.z ≤ fuel
    → IsSized fuel smin basis
unfolding basis_size
basis_size-IsSized fuel smin basis hx hy hz some_entry h =
    let u = suitable_basis_lem basis in
    let r = least_scale smin u.new in
    let a = least_scale_lem smin u.new hx hy hz in
    let sum = smin.x + smin.y + smin.z in
    let bound : r ≤ sum = a.bounded sum (omega arith) (omega arith) (omega arith) in
    let positive : 0 < r =
      least_scale-positive smin basis u.new hx hy hz u.first u.second u.third some_entry in
    let n = next_suitable-IsClosest fuel r positive a.even (omega arith) in
    let l = n.least in
    record {
      size = record { x = u.new.x * l.size; y = u.new.y * l.size; z = u.new.z * l.size };
      found = rw (u.found, l.found) refl;
      first =
          side_lem smin.x basis.x u.new.x l.size
            (λ k. still_covers smin.x u.new.x r l.size (a.covers_x k) l.low) l.even l.smooth
            u.first;
      second =
          side_lem smin.y basis.y u.new.y l.size
            (λ k. still_covers smin.y u.new.y r l.size (a.covers_y k) l.low) l.even l.smooth
            u.second;
      third =
          side_lem smin.z basis.z u.new.z l.size
            (λ k. still_covers smin.z u.new.z r l.size (a.covers_z k) l.low) l.even l.smooth
            u.third;
    }
