-- ===== src/Prelude/Masks.antt =====
-- Masks of 32-bit words as arithmetic.
use Prim.Native.Nat.{ℕ, zero, suc, ◌+◌, ◌-◌, ◌*◌, ◌/◌, ◌%◌, ◌<◌, min, max, bit_and, bit_or, bit_xor}
use mathlib.Core.Path.{◌≡◌, refl, ap, ◌∙◌}
use native.Mathlib.Nat.{mul_assoc}
use native.Mathlib.Omega.{arith}
use freertos_in_rust.Prelude.Tests.{ltb, if◌then◌else◌}
use freertos_in_rust.Prelude.Words.{word_mod}
use freertos_in_rust.Prelude.Bits.{
  pow2, pow2_pos, and_low, or_low, xor_low, and_not, eq_of_test_bit, test_bit-and, test_bit-zero,
  bit_and-le,
}

bit_and-zero : (x : ℕ) → bit_and x 0 ≡ 0
bit_and-zero x = eq_of_test_bit _ _ λ i. ground (arith, test_bit-and i x 0, test_bit-zero i)

bit_and-one : (x : ℕ) → bit_and x 1 ≡ x % 2
bit_and-one x = omega (arith, and_low x 1, bit_and-zero (x / 2))

-- `x & 7`
pub bit_and-seven : (x : ℕ) → bit_and x 7 ≡ x % 8
bit_and-seven x = omega (arith, and_low x 7, and_low (x / 2) 3, bit_and-one (x / 2 / 2))

and_top : (k x : ℕ) → x < 2 * pow2 k → bit_and x (pow2 k) ≡ (if ltb x (pow2 k) then 0 else pow2 k)
unfolding pow2
and_top zero x h = ground (arith, bit_and-one x)
and_top (suc k) x h =
    let half : 2 * pow2 k / 2 ≡ pow2 k = omega arith in
    let low = and_low x (2 * pow2 k) in
    let high : bit_and (x / 2) (2 * pow2 k / 2) ≡ bit_and (x / 2) (pow2 k) =
      ap (bit_and (x / 2)) half in
    ground (arith, and_top k (x / 2))

or_top : (k x : ℕ) → x < pow2 k → bit_or x (pow2 k) ≡ x + pow2 k
unfolding pow2
or_top zero zero h = refl
or_top zero (suc x) h = absurd (omega arith)
or_top (suc k) x h =
    let half : 2 * pow2 k / 2 ≡ pow2 k = omega arith in
    let low = or_low x (2 * pow2 k) in
    let high : bit_or (x / 2) (2 * pow2 k / 2) ≡ bit_or (x / 2) (pow2 k) =
      ap (bit_or (x / 2)) half in
    omega (arith, or_top k (x / 2) (omega arith))

and_xor-ones : (k x m : ℕ) → x < pow2 k → bit_and x (bit_xor m (pow2 k - 1)) + bit_and x m ≡ x
unfolding pow2
and_xor-ones zero zero m h =
    omega (arith, and_low 0 (bit_xor m 0), and_low 0 m, bit_and-le 0 (bit_xor m 0), bit_and-le 0 m)
and_xor-ones zero (suc x) m h = absurd (omega arith)
and_xor-ones (suc k) x m h =
    let half : (2 * pow2 k - 1) / 2 ≡ pow2 k - 1 = omega (arith, pow2_pos k) in
    let odd : (2 * pow2 k - 1) % 2 ≡ 1 = omega (arith, pow2_pos k) in
    let mask = bit_xor m (2 * pow2 k - 1) in
    let low = xor_low m (2 * pow2 k - 1) in
    let high : bit_xor (m / 2) ((2 * pow2 k - 1) / 2) ≡ bit_xor (m / 2) (pow2 k - 1) =
      ap (bit_xor (m / 2)) half in
    let mask_half : mask / 2 ≡ bit_xor (m / 2) (pow2 k - 1) = ground arith in
    let below : bit_and (x / 2) (mask / 2) ≡ bit_and (x / 2) (bit_xor (m / 2) (pow2 k - 1)) =
      ap (bit_and (x / 2)) mask_half in
    ground (arith, and_low x mask, and_low x m, and_xor-ones k (x / 2) (m / 2) (omega arith))

-- `x & !m`
pub and_not-sub : (x m : ℕ) → x < word_mod → and_not x m ≡ x - bit_and x m
unfolding pow2
and_not-sub x m h = omega (arith, and_xor-ones 32 x m h)

-- `x & (1 << 31)`
pub bit_and-top :
    (x : ℕ) → x < word_mod → bit_and x 0x8000_0000 ≡ (if ltb x 0x8000_0000 then 0 else 0x8000_0000)
unfolding pow2
bit_and-top x h = and_top 31 x h

-- `x | (1 << 31)`
pub bit_or-top : (x : ℕ) → x < 0x8000_0000 → bit_or x 0x8000_0000 ≡ x + 0x8000_0000
unfolding pow2
bit_or-top x h = or_top 31 x h

-- `x` without its lowest `k` bits
abbrev pub shift : ℕ → ℕ → ℕ
shift zero x = x
shift (suc k) x = shift k (x / 2)

-- `x & (2 ^ k - 1)` is what is above the last multiple of `2 ^ k`.
pub bit_and-mask : (k x : ℕ) → bit_and x (pow2 k - 1) + pow2 k * shift k x ≡ x
unfolding pow2
bit_and-mask zero x = omega (arith, bit_and-zero x)
bit_and-mask (suc k) x =
    let below = bit_and-mask k (x / 2) in
    let half : (2 * pow2 k - 1) / 2 ≡ pow2 k - 1 = omega (arith, pow2_pos k) in
    let low : bit_and x (2 * pow2 k - 1) ≡ bit_and (x / 2) (pow2 k - 1) * 2 + x % 2 =
      and_low x (2 * pow2 k - 1)
      ∙ ap (λ y. bit_and (x / 2) y * 2 + min (x % 2) ((2 * pow2 k - 1) % 2)) half
      ∙ omega (arith, pow2_pos k) in
    let double : 2 * pow2 k * shift k (x / 2) ≡ 2 * (pow2 k * shift k (x / 2)) =
      mul_assoc 2 (pow2 k) (shift k (x / 2)) in
    omega arith

pub bit_and-lt_mask : (k x : ℕ) → bit_and x (pow2 k - 1) < pow2 k
unfolding pow2
bit_and-lt_mask zero x = omega (arith, bit_and-zero x)
bit_and-lt_mask (suc k) x =
    let below = bit_and-lt_mask k (x / 2) in
    let half : (2 * pow2 k - 1) / 2 ≡ pow2 k - 1 = omega (arith, pow2_pos k) in
    let low : bit_and x (2 * pow2 k - 1) ≡ bit_and (x / 2) (pow2 k - 1) * 2 + x % 2 =
      and_low x (2 * pow2 k - 1)
      ∙ ap (λ y. bit_and (x / 2) y * 2 + min (x % 2) ((2 * pow2 k - 1) % 2)) half
      ∙ omega (arith, pow2_pos k) in
    omega arith

-- The larger of 8 and a power of two is a power of two.
pub max-pow2 : (j : ℕ) → (k : ℕ) × (max (pow2 j) 8 ≡ pow2 k)
unfolding pow2
max-pow2 zero = (3, refl)
max-pow2 (suc zero) = (3, refl)
max-pow2 (suc (suc zero)) = (3, refl)
max-pow2 (suc (suc (suc j))) = (suc (suc (suc j)), omega (arith, pow2_pos j))
