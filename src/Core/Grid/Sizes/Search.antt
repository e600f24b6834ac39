-- ===== src/Core/Grid/Sizes/Search.antt =====
-- jdftx/core/GridInfo.cpp, `GridInfo::initialize`: the search for a suitable scale.
use python_jdftx.Common.{
  ℕ, zero, suc, ◌+◌, ◌*◌, ◌%◌, ◌<◌, ◌≤◌, ◌≡◌, ◌≢◌, leb, refl, sym, subst, some, ◌==◌, arith,
  Bool-cases, inl, inr,
}
use python_jdftx.Core.Grid.Sizes.{next_suitable}
use python_jdftx.Core.Grid.Sizes.Smooth.{times, IsSmooth, fft_suitable-IsSmooth}

-- A power of two between a number and its double.
record IsBetween (n k : ℕ) : Type 0 where
  low : n ≤ times 2 k 1
  high : times 2 k 1 < 2 * n

record HasPower (n : ℕ) : Type 0 where
  power : ℕ
  between : IsBetween n power

power_between : (n : ℕ) → HasPower (suc n)
unfolding times
power_between zero = record {
  power = 0;
  between = record { low = omega arith; high = omega arith };
}
power_between (suc n) =
    let rest = power_between n in
    let low = rest.between.low in
    let high = rest.between.high in
    elim (Bool-cases (times 2 rest.power 1 == suc n)) [
      | inl e ↦ record {
        power = suc rest.power;
        between = record { low = ground arith; high = ground arith };
      }
      | inr e ↦ record {
        power = rest.power;
        between = record { low = ground arith; high = ground arith };
      }
    ]

-- What the search finds: the least suitable number that is not below `n` and even as `n` is.
pub record IsLeast (fuel n : ℕ) : Type 0 where
  pub size : ℕ
  pub found : next_suitable fuel n ≡ some size
  pub low : n ≤ size
  pub even : size % 2 ≡ 0
  pub smooth : IsSmooth size
  pub least : (m : ℕ) → n ≤ m → m < size → m % 2 ≡ 0 → ¬ IsSmooth m

search :
    (fuel n t : ℕ)
    → 0 < n
    → n % 2 ≡ 0
    → n ≤ t
    → t % 2 ≡ 0
    → t < n + 2 * fuel
    → IsSmooth t
    → IsLeast fuel n
unfolding next_suitable
search zero n t hn even low teven high smooth = absurd (omega arith)
search (suc fuel) n t hn even low teven high smooth =
    let d = fft_suitable-IsSmooth n n hn (omega arith) in
    elim (Bool-cases d.answer) [
      | inl good ↦ record {
        size = n;
        found = rw (d.found, good, next_suitable) refl;
        low = omega arith;
        even = even;
        smooth = d.right.0 good;
        least = λ m hm h. absurd (omega arith);
      }
      | inr bad ↦
          let rough : ¬ IsSmooth n = λ s. ground (arith, d.right.1 s) in
          let differs : n ≢ t = λ e. rough (subst IsSmooth (sym e) smooth) in
          let rest =
            search fuel (n + 2) t (omega arith) (omega arith) (omega (arith, differs)) teven
              (omega arith) smooth in
          record {
            size = rest.size;
            found = rw (d.found, bad, next_suitable) rest.found;
            low = omega (arith, rest.low);
            even = rest.even;
            smooth = rest.smooth;
            least = λ m hm h me s. elim (Bool-cases (m == n)) [
              | inl same ↦ rough (subst IsSmooth (ground arith) s)
              | inr other ↦ let further : n ≢ m = ground arith in rest.least m (omega arith) h me s
            ];
          }
    ]

even_power : (k : ℕ) → 1 < times 2 k 1 → times 2 k 1 % 2 ≡ 0
unfolding times
even_power zero h = absurd (omega arith)
even_power (suc k) h = omega arith

power-IsSmooth : (k : ℕ) → IsSmooth (times 2 k 1)
unfolding times
power-IsSmooth k = record { twos = k; threes = 0; fives = 0; sevens = 0; product = refl }

-- What `next_suitable-IsLeast` says: the search ends, at the least suitable even number from `n` on,
-- which is less than twice `n`.
pub record IsClosest (fuel n : ℕ) : Type 0 where
  pub least : IsLeast fuel n
  pub near : least.size < 2 * n

-- From an even number that is not 0, with as much fuel, the search for a suitable scale ends, at
-- the least even product of powers of 2, 3, 5 and 7 from there on, which is less than its double.
pub next_suitable-IsClosest : (fuel n : ℕ) → 0 < n → n % 2 ≡ 0 → n ≤ fuel → IsClosest fuel n
next_suitable-IsClosest fuel zero hn even h = absurd (omega arith)
next_suitable-IsClosest fuel (suc n) hn even h =
    let p = power_between n in
    let t = times 2 p.power 1 in
    let low = p.between.low in
    let high = p.between.high in
    let teven = even_power p.power (omega arith) in
    let l = search fuel (suc n) t hn even low teven (omega arith) (power-IsSmooth p.power) in
    record {
      least = l;
      near = elim (Bool-cases (leb l.size t)) [
        | inl e ↦ ground arith
        | inr e ↦ absurd (l.least t low (ground arith) teven (power-IsSmooth p.power))
      ];
    }
