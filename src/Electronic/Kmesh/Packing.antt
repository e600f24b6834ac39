-- ===== src/Electronic/Kmesh/Packing.antt =====
-- jdftx/electronic/Symmetries.cpp, `kmapPack` and `kmapUnpack`.
use Prim.Native.Nat.{bit_and, bit_or, min, bit_and-bitwise}
use python_jdftx.Common.{
  ℕ, ◌+◌, ◌*◌, ◌/◌, ◌%◌, ◌^◌, ◌<◌, ◌≤◌, ◌≡◌, ap, ◌∙◌, Bool, true, false, not, ◌==◌, if◌then◌else◌,
  arith,
}
use python_jdftx.Common.Bits.{shl, bit_or-shl, bit_and_peel}
use python_jdftx.Core.Tasks.{size_mod}
use python_jdftx.Electronic.Kmesh.{kmap_pack, unpack_src, unpack_inverted, unpack_sym, unmapped}

abbrev pub sign_bit : Bool → ℕ
sign_bit b = if b then 1 else 0

-- The fields do not overlap.
pub kmap_pack_sum :
    (i_src : ℕ) (inverted : Bool) (i_sym : ℕ)
    → i_src < 2 ^ 56
    → i_sym < 2 ^ 7
    → kmap_pack i_src inverted i_sym ≡ i_src * 256 + sign_bit inverted * 128 + i_sym
unfolding kmap_pack
kmap_pack_sum i_src inverted i_sym hs hy =
    let fits : i_src * 256 % size_mod ≡ shl i_src 8 = omega arith in
    let flag : sign_bit inverted * 128 < shl 1 8 = ground arith in
    let upper = bit_or-shl 8 i_src (sign_bit inverted * 128) flag in
    let both : bit_or (i_src * 256 % size_mod) (sign_bit inverted * 128)
        ≡ shl i_src 8 + sign_bit inverted * 128 =
      ap (λ x. bit_or x (sign_bit inverted * 128)) fits ∙ upper in
    let even : shl i_src 8 + sign_bit inverted * 128 ≡ shl (2 * i_src + sign_bit inverted) 7 =
      omega arith in
    let lower = bit_or-shl 7 (2 * i_src + sign_bit inverted) i_sym (omega arith) in
    ap (λ x. bit_or x i_sym) (both ∙ even) ∙ lower ∙ omega arith

nothing-bit_and : (b : ℕ) → bit_and 0 b ≡ 0
nothing-bit_and b = bit_and-bitwise 0 b

sign_lem : (b : Bool) (k : ℕ) → k ≡ sign_bit b * 128 → not (k == 0) ≡ b
sign_lem true k e = ground arith
sign_lem false k e = ground arith

odd-bit_and : (m k : ℕ) → bit_and (2 * m + 1) k ≡ bit_and m (k / 2) * 2 + k % 2
odd-bit_and m k =
    let half : (2 * m + 1) / 2 ≡ m = omega arith in
    let odd : (2 * m + 1) % 2 ≡ 1 = omega arith in
    let step = ap (λ x. bit_and x (k / 2)) half in
    let one : min 1 (k % 2) ≡ k % 2 = omega arith in
    bit_and_peel (2 * m + 1) k
    ∙ ap (λ x. x * 2 + min ((2 * m + 1) % 2) (k % 2)) step
    ∙ ap (λ x. bit_and m (k / 2) * 2 + min x (k % 2)) odd
    ∙ ap (λ x. bit_and m (k / 2) * 2 + x) one

even-bit_and : (m k : ℕ) → bit_and (2 * m) k ≡ bit_and m (k / 2) * 2
even-bit_and m k =
    let half : 2 * m / 2 ≡ m = omega arith in
    let even : 2 * m % 2 ≡ 0 = omega arith in
    let step = ap (λ x. bit_and x (k / 2)) half in
    bit_and_peel (2 * m) k
    ∙ ap (λ x. x * 2 + min (2 * m % 2) (k % 2)) step
    ∙ ap (λ x. bit_and m (k / 2) * 2 + min x (k % 2)) even
    ∙ omega arith

-- A mask of ones keeps the lower digits.
bit_and_1 : (k : ℕ) → bit_and 1 k ≡ k % 2
bit_and_1 k = odd-bit_and 0 k ∙ ap (λ x. x * 2 + k % 2) (nothing-bit_and (k / 2)) ∙ omega arith

bit_and_3 : (k : ℕ) → bit_and 3 k ≡ k % 4
bit_and_3 k = odd-bit_and 1 k ∙ ap (λ x. x * 2 + k % 2) (bit_and_1 (k / 2)) ∙ omega arith

bit_and_7 : (k : ℕ) → bit_and 7 k ≡ k % 8
bit_and_7 k = odd-bit_and 3 k ∙ ap (λ x. x * 2 + k % 2) (bit_and_3 (k / 2)) ∙ omega arith

bit_and_15 : (k : ℕ) → bit_and 15 k ≡ k % 16
bit_and_15 k = odd-bit_and 7 k ∙ ap (λ x. x * 2 + k % 2) (bit_and_7 (k / 2)) ∙ omega arith

bit_and_31 : (k : ℕ) → bit_and 31 k ≡ k % 32
bit_and_31 k = odd-bit_and 15 k ∙ ap (λ x. x * 2 + k % 2) (bit_and_15 (k / 2)) ∙ omega arith

bit_and_63 : (k : ℕ) → bit_and 63 k ≡ k % 64
bit_and_63 k = odd-bit_and 31 k ∙ ap (λ x. x * 2 + k % 2) (bit_and_31 (k / 2)) ∙ omega arith

pub bit_and_low : (k : ℕ) → bit_and 0x7f k ≡ k % 128
bit_and_low k = odd-bit_and 63 k ∙ ap (λ x. x * 2 + k % 2) (bit_and_63 (k / 2)) ∙ omega arith

-- A mask of one digit keeps that digit.
bit_and_4 : (k : ℕ) → bit_and 4 k ≡ k / 4 % 2 * 4
bit_and_4 k =
    even-bit_and 2 k
    ∙ ap (λ x. x * 2) (even-bit_and 1 (k / 2) ∙ ap (λ x. x * 2) (bit_and_1 (k / 2 / 2)))
    ∙ omega arith

bit_and_16 : (k : ℕ) → bit_and 16 k ≡ k / 16 % 2 * 16
bit_and_16 k =
    even-bit_and 8 k
    ∙ ap (λ x. x * 2) (even-bit_and 4 (k / 2) ∙ ap (λ x. x * 2) (bit_and_4 (k / 2 / 2)))
    ∙ omega arith

bit_and_64 : (k : ℕ) → bit_and 64 k ≡ k / 64 % 2 * 64
bit_and_64 k =
    even-bit_and 32 k
    ∙ ap (λ x. x * 2) (even-bit_and 16 (k / 2) ∙ ap (λ x. x * 2) (bit_and_16 (k / 2 / 2)))
    ∙ omega arith

bit_and_high : (k : ℕ) → bit_and 0x80 k ≡ k / 128 % 2 * 128
bit_and_high k = even-bit_and 64 k ∙ ap (λ x. x * 2) (bit_and_64 (k / 2)) ∙ omega arith

-- Unpacking gives back what was packed, for fewer than 2 ^ 56 k-points and at most 128 symmetries.
pub kmap_unpack-pack :
    (i_src : ℕ) (inverted : Bool) (i_sym : ℕ)
    → i_src < 2 ^ 56
    → i_sym < 2 ^ 7
    → (unpack_src (kmap_pack i_src inverted i_sym) ≡ i_src)
      × (unpack_inverted (kmap_pack i_src inverted i_sym) ≡ inverted)
      × (unpack_sym (kmap_pack i_src inverted i_sym) ≡ i_sym)
unfolding unpack_src unpack_inverted unpack_sym
kmap_unpack-pack i_src inverted i_sym hs hy =
    let whole = kmap_pack_sum i_src inverted i_sym hs hy in
    let bit : sign_bit inverted < 2 = ground arith in
    let packed = kmap_pack i_src inverted i_sym in
    let high = bit_and_high packed in
    let low = bit_and_low packed in
    (omega arith, sign_lem inverted (bit_and 0x80 packed) (omega arith), omega arith)

pub kmap_pack_bound :
    (i_src : ℕ) (inverted : Bool) (i_sym : ℕ)
    → i_src < 2 ^ 56
    → i_sym < 2 ^ 7
    → kmap_pack i_src inverted i_sym ≤ unmapped
kmap_pack_bound i_src inverted i_sym hs hy =
    let bit : sign_bit inverted < 2 = ground arith in
    omega (arith, kmap_pack_sum i_src inverted i_sym hs hy)
