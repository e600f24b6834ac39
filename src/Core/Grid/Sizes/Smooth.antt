-- ===== src/Core/Grid/Sizes/Smooth.antt =====
-- jdftx/core/Util.h, `fftSuitable`: which numbers it accepts.
use native.Mathlib.Nat.{mul-mod_right, mul-div_right, div-lt_self, div-add-mod}
use python_jdftx.Common.{
  ℕ, none, zero, suc, ◌*◌, ◌/◌, ◌%◌, ◌<◌, ◌≤◌, ◌≡◌, refl, sym, ap, ◌∙◌, ◌↔◌, subst, Bool, true,
  some, ◌==◌, arith, Bool-cases, inl, inr,
}
use python_jdftx.Core.Grid.Sizes.{strip, fft_suitable}

-- A power of `p` times `n`.
unfoldable pub times : (p k n : ℕ) → ℕ
times p zero n = n
times p (suc k) n = p * times p k n

-- A product of powers of 2, 3, 5 and 7.
pub record IsSmooth (n : ℕ) : Type 0 where
  pub twos : ℕ
  pub threes : ℕ
  pub fives : ℕ
  pub sevens : ℕ
  pub product : n ≡ times 2 twos (times 3 threes (times 5 fives (times 7 sevens 1)))

-- What stripping a factor yields.
record Stripped (p fuel n : ℕ) : Type 0 where
  left : ℕ
  power : ℕ
  found : strip p fuel n ≡ some left
  product : n ≡ times p power left
  positive : 0 < left
  small : left ≤ n
  done : 0 < left % p

strip_lem : (p fuel n : ℕ) → 1 < p → 0 < n → n ≤ fuel → Stripped p fuel n
unfolding strip times
strip_lem p zero n hp hn h = absurd (omega arith)
strip_lem p (suc fuel) n hp hn h = elim (Bool-cases (n % p == 0)) [
  | inr stays ↦ record {
    left = n;
    power = 0;
    found = rw (stays, strip) refl;
    product = refl;
    positive = hn;
    small = omega arith;
    done = ground arith;
  }
  | inl divides ↦
      let parts = div-add-mod n p in
      let none_left : n % p ≡ 0 = ground arith in
      let whole : p * (n / p) ≡ n = omega arith in
      let less = div-lt_self hn hp in
      let some_left : 0 < n / p = grind arith in
      let rest = strip_lem p fuel (n / p) hp some_left (omega arith) in
      record {
        left = rest.left;
        power = suc rest.power;
        found = rw (divides, strip) rest.found;
        product = sym whole ∙ ap (λ (k : ℕ). p * k) rest.product;
        positive = rest.positive;
        small = omega (arith, rest.small);
        done = rest.done;
      }
]

strip_step : (p fuel n : ℕ) → (n % p == 0) ≡ true → strip p (suc fuel) n ≡ strip p fuel (n / p)
unfolding strip
strip_step p fuel n divides = rw (divides, strip) refl

times_large : (p k m : ℕ) → 1 < p → m ≤ times p k m
unfolding times
times_large p zero m hp = omega arith
times_large p (suc k) m hp =
    let rest = times_large p k m hp in
    let more : times p k m ≤ p * times p k m = grind arith in omega arith

times_positive : (p k m : ℕ) → 1 < p → 0 < m → 0 < times p k m
unfolding times
times_positive p zero m hp hm = hm
times_positive p (suc k) m hp hm = let rest = times_positive p k m hp hm in grind arith

-- A power of `p` is stripped whole.
strip-times :
    (p fuel k m : ℕ)
    → 1 < p
    → 0 < m
    → 0 < m % p
    → times p k m ≤ fuel
    → strip p fuel (times p k m) ≡ some m
unfolding strip times
strip-times p zero zero m hp hm rest h = absurd (omega arith)
strip-times p (suc fuel) zero m hp hm rest h = ground arith
strip-times p zero (suc k) m hp hm rest h =
    let power = times_positive p k m hp hm in
    let more : 0 < p * times p k m = grind arith in absurd (omega arith)
strip-times p (suc fuel) (suc k) m hp hm rest h =
    let power = times_positive p k m hp hm in
    let even : (p * times p k m) % p ≡ 0 = mul-mod_right p (times p k m) in
    let less : times p k m < p * times p k m = grind arith in
    let divides : ((p * times p k m) % p == 0) ≡ true = ground arith in
    let half : (p * times p k m) / p ≡ times p k m = mul-div_right (times p k m) (omega arith) in
    let shorter = strip-times p fuel k m hp hm rest (omega arith) in
    strip_step p fuel (p * times p k m) divides ∙ ap (strip p fuel) half ∙ shorter

-- A power of another factor leaves a number that `p` does not divide.
times-keeps :
    (p q k n : ℕ) → ((m : ℕ) → 0 < m % p → 0 < (q * m) % p) → 0 < n % p → 0 < times q k n % p
unfolding times
times-keeps p q zero n keeps h = h
times-keeps p q (suc k) n keeps h = keeps (times q k n) (times-keeps p q k n keeps h)

odd_three : (m : ℕ) → 0 < m % 2 → 0 < (3 * m) % 2
odd_three m h = omega arith

odd_five : (m : ℕ) → 0 < m % 2 → 0 < (5 * m) % 2
odd_five m h = omega arith

odd_seven : (m : ℕ) → 0 < m % 2 → 0 < (7 * m) % 2
odd_seven m h = omega arith

third_five : (m : ℕ) → 0 < m % 3 → 0 < (5 * m) % 3
third_five m h = omega arith

third_seven : (m : ℕ) → 0 < m % 3 → 0 < (7 * m) % 3
third_seven m h = omega arith

fifth_seven : (m : ℕ) → 0 < m % 5 → 0 < (7 * m) % 5
fifth_seven m h = omega arith

-- Whether fftSuitable ends, and what its answer says.
pub record IsDecided (fuel n : ℕ) : Type 0 where
  pub answer : Bool
  pub found : fft_suitable fuel n ≡ some answer
  pub right : (answer ≡ true) ↔ IsSmooth n

smooth-suitable :
    (fuel a b c d : ℕ)
    → times 2 a (times 3 b (times 5 c (times 7 d 1))) ≤ fuel
    → fft_suitable fuel (times 2 a (times 3 b (times 5 c (times 7 d 1)))) ≡ some true
unfolding fft_suitable times
smooth-suitable fuel a b c d h =
    let m7 = times 7 d 1 in
    let m5 = times 5 c m7 in
    let m3 = times 3 b m5 in
    let p7 : 0 < m7 = times_positive 7 d 1 (omega arith) (omega arith) in
    let p5 : 0 < m5 = times_positive 5 c m7 (omega arith) p7 in
    let p3 : 0 < m3 = times_positive 3 b m5 (omega arith) p5 in
    let l3 = times_large 2 a m3 (omega arith) in
    let l5 = times_large 3 b m5 (omega arith) in
    let l7 = times_large 5 c m7 (omega arith) in
    let odd5 : 0 < m5 % 2 =
      times-keeps 2 5 c m7 odd_five (times-keeps 2 7 d 1 odd_seven (omega arith)) in
    let odd3 : 0 < m3 % 2 = times-keeps 2 3 b m5 odd_three odd5 in
    let third5 : 0 < m5 % 3 =
      times-keeps 3 5 c m7 third_five (times-keeps 3 7 d 1 third_seven (omega arith)) in
    let fifth7 : 0 < m7 % 5 = times-keeps 5 7 d 1 fifth_seven (omega arith) in
    let s2 = strip-times 2 fuel a m3 (omega arith) p3 odd3 h in
    let s3 = strip-times 3 fuel b m5 (omega arith) p5 third5 (omega arith) in
    let s5 = strip-times 5 fuel c m7 (omega arith) p7 fifth7 (omega arith) in
    let s7 = strip-times 7 fuel d 1 (omega arith) (omega arith) (omega arith) (omega arith) in
    rw (s2, s3, s5, s7) refl

-- fftSuitable ends on every positive number, with true for the products of powers of 2, 3, 5 and
-- 7 and with false for the others.
pub fft_suitable-IsSmooth : (fuel n : ℕ) → 0 < n → n ≤ fuel → IsDecided fuel n
unfolding fft_suitable
fft_suitable-IsSmooth fuel n hn h =
    let a = strip_lem 2 fuel n (omega arith) hn h in
    let b = strip_lem 3 fuel a.left (omega arith) a.positive (omega (arith, a.small)) in
    let c = strip_lem 5 fuel b.left (omega arith) b.positive (omega (arith, a.small, b.small)) in
    let d =
      strip_lem 7 fuel c.left (omega arith) c.positive (omega (arith, a.small, b.small, c.small)) in
    let found : fft_suitable fuel n ≡ some (d.left == 1) =
      rw (a.found, b.found, c.found, d.found) refl in
    let whole : n ≡ times 2 a.power (times 3 b.power (times 5 c.power (times 7 d.power d.left))) =
      a.product
      ∙ ap (times 2 a.power)
          (b.product ∙ ap (times 3 b.power) (c.product ∙ ap (times 5 c.power) d.product)) in
    record {
      answer = d.left == 1;
      found = found;
      right = (
        λ e. record {
          twos = a.power;
          threes = b.power;
          fives = c.power;
          sevens = d.power;
          product =
              subst
                (λ x. n ≡ times 2 a.power (times 3 b.power (times 5 c.power (times 7 d.power x))))
                (ground arith) whole;
        },
        λ smooth.
            let e =
              smooth-suitable fuel smooth.twos smooth.threes smooth.fives smooth.sevens
                (subst (λ x. x ≤ fuel) smooth.product h) in
            let t : fft_suitable fuel n ≡ some true =
              subst (λ x. fft_suitable fuel x ≡ some true) (sym smooth.product) e in
            ground arith,
      );
    }

strip_zero : (fuel : ℕ) → strip 2 fuel 0 ≡ none
unfolding strip
strip_zero zero = refl
strip_zero (suc fuel) = strip_zero fuel

-- On 0, fftSuitable does not end, whatever the fuel.
pub fft_suitable_loops : (fuel : ℕ) → fft_suitable fuel 0 ≡ none
unfolding fft_suitable
fft_suitable_loops fuel = rw (strip_zero fuel) refl
