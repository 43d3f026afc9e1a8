-- ===== src/Prelude/Bits.antt =====
-- Bits of native numbers: what `&`, `|` and `!` do to each bit.
use Prim.Native.Nat.{
  ℕ, zero, suc, ◌+◌, ◌-◌, ◌*◌, ◌/◌, ◌%◌, ◌≤◌, ◌<◌, min, max, bit_and, bit_or, bit_xor, digits,
  bit_and-bitwise, bit_or-bitwise, bit_xor-bitwise, differ,
}
use mathlib.Core.Logic.{inl, inr}
use freertos_in_rust.Prelude.Words.{word_mod, word_max}
use mathlib.Core.Path.{◌≡◌, refl, sym, ap, ◌∙◌}
use mathlib.Core.Bool.{Bool, true, false, not, ◌&&◌, ◌||◌}
use native.Mathlib.Omega.{arith}
use freertos_in_rust.Prelude.Tests.{Bool-cases, ltb, ◌==◌, if◌then◌else◌}

-- The `i`-th bit of `x`.
pub test_bit : ℕ → ℕ → Bool
test_bit x zero = x % 2 == 1
test_bit x (suc i) = test_bit (x / 2) i

-- The operations on digits do not depend on the fuel, if it is enough for the first number.
module _ (last : ℕ → ℕ) (f : ℕ → ℕ → ℕ) where
  digits_done : (fuel y : ℕ) → digits last f fuel zero y ≡ last y
  digits_done zero y = refl
  digits_done (suc fuel) y = refl

  digits_enough : (x k l y : ℕ) → x ≤ k → x ≤ l → digits last f k x y ≡ digits last f l x y
  digits_enough zero k l y p q = digits_done k y ∙ sym (digits_done l y)
  digits_enough (suc x) zero l y p q = absurd (omega arith)
  digits_enough (suc x) (suc k) zero y p q = absurd (omega arith)
  digits_enough (suc x) (suc k) (suc l) y p q =
      ap (λ r. r * 2 + f (suc x % 2) (y % 2))
        (digits_enough (suc x / 2) k l (y / 2) (omega arith) (omega arith))

  digits_low :
      (x y : ℕ)
      → 0 < x
      → digits last f x x y ≡ digits last f (x / 2) (x / 2) (y / 2) * 2 + f (x % 2) (y % 2)
  digits_low zero y p = absurd (omega arith)
  digits_low (suc x) y p =
      ap (λ r. r * 2 + f (suc x % 2) (y % 2))
        (digits_enough (suc x / 2) x (suc x / 2) (y / 2) (omega arith) (omega arith))

pub and_low : (x y : ℕ) → bit_and x y ≡ bit_and (x / 2) (y / 2) * 2 + min (x % 2) (y % 2)
and_low zero y = omega (arith, bit_and-bitwise 0 y, bit_and-bitwise 0 (y / 2))
and_low (suc x) y = omega (
  arith,
  bit_and-bitwise (suc x) y,
  bit_and-bitwise (suc x / 2) (y / 2),
  digits_low (λ c. zero) min (suc x) y (omega arith),
)

pub or_low : (x y : ℕ) → bit_or x y ≡ bit_or (x / 2) (y / 2) * 2 + max (x % 2) (y % 2)
or_low zero y = omega (arith, bit_or-bitwise 0 y, bit_or-bitwise 0 (y / 2))
or_low (suc x) y = omega (
  arith,
  bit_or-bitwise (suc x) y,
  bit_or-bitwise (suc x / 2) (y / 2),
  digits_low (λ c. c) max (suc x) y (omega arith),
)

differ_lem : (m n : ℕ) → m < 2 → n < 2 → differ m n ≡ (if m == n then 0 else 1)
differ_lem zero zero p q = refl
differ_lem zero (suc zero) p q = refl
differ_lem (suc zero) zero p q = refl
differ_lem (suc zero) (suc zero) p q = refl
differ_lem (suc (suc m)) n p q = absurd (omega arith)
differ_lem m (suc (suc n)) p q = absurd (omega arith)

differ_bit : (a b : ℕ) → differ (a % 2) (b % 2) ≡ (if a % 2 == b % 2 then 0 else 1)
differ_bit a b = differ_lem (a % 2) (b % 2) (omega arith) (omega arith)

pub xor_low :
    (x y : ℕ) → bit_xor x y ≡ bit_xor (x / 2) (y / 2) * 2 + (if x % 2 == y % 2 then 0 else 1)
xor_low zero y = ground (arith, bit_xor-bitwise 0 y, bit_xor-bitwise 0 (y / 2))
xor_low (suc x) y = ground (
  arith,
  bit_xor-bitwise (suc x) y,
  bit_xor-bitwise (suc x / 2) (y / 2),
  differ_bit (suc x) y,
  digits_low (λ c. c) differ (suc x) y (omega arith),
)

pub test_bit-and : (i a b : ℕ) → test_bit (bit_and a b) i ≡ (test_bit a i && test_bit b i)
unfolding test_bit
test_bit-and zero a b = ground (arith, and_low a b)
test_bit-and (suc i) a b =
    let half : bit_and a b / 2 ≡ bit_and (a / 2) (b / 2) = omega (arith, and_low a b) in
    rw half (test_bit-and i (a / 2) (b / 2))

pub test_bit-or : (i a b : ℕ) → test_bit (bit_or a b) i ≡ (test_bit a i || test_bit b i)
unfolding test_bit
test_bit-or zero a b = ground (arith, or_low a b)
test_bit-or (suc i) a b =
    let half : bit_or a b / 2 ≡ bit_or (a / 2) (b / 2) = omega (arith, or_low a b) in
    rw half (test_bit-or i (a / 2) (b / 2))

pub test_bit-xor :
    (i a b : ℕ)
    → test_bit (bit_xor a b) i ≡ (if test_bit a i then not (test_bit b i) else test_bit b i)
unfolding test_bit
test_bit-xor zero a b = ground (arith, xor_low a b)
test_bit-xor (suc i) a b =
    let half : bit_xor a b / 2 ≡ bit_xor (a / 2) (b / 2) = ground (arith, xor_low a b) in
    rw half (test_bit-xor i (a / 2) (b / 2))

-- `2 ^ k`, by recursion
unfoldable pub pow2 : ℕ → ℕ
pow2 zero = 1
pow2 (suc k) = 2 * pow2 k

pub pow2_pos : (k : ℕ) → 0 < pow2 k
unfolding pow2
pow2_pos zero = omega arith
pow2_pos (suc k) = omega (arith, pow2_pos k)

test_bit-high : (k x i : ℕ) → x < pow2 k → k ≤ i → test_bit x i ≡ false
unfolding test_bit pow2
test_bit-high zero x zero h k = ground arith
test_bit-high zero x (suc i) h k = test_bit-high zero (x / 2) i (omega arith) (omega arith)
test_bit-high (suc k) x zero h l = absurd (omega arith)
test_bit-high (suc k) x (suc i) h l = test_bit-high k (x / 2) i (omega arith) (omega arith)

test_bit-ones : (k i : ℕ) → i < k → test_bit (pow2 k - 1) i ≡ true
unfolding test_bit pow2
test_bit-ones zero i h = absurd (omega arith)
test_bit-ones (suc k) zero h = ground (arith, pow2_pos k)
test_bit-ones (suc k) (suc i) h =
    let half : (2 * pow2 k - 1) / 2 ≡ pow2 k - 1 = omega (arith, pow2_pos k) in
    rw half (test_bit-ones k i (omega arith))

-- `x & !m` on 32-bit words
abbrev pub and_not : ℕ → ℕ → ℕ
and_not x m = bit_and x (bit_xor m word_max)

pub test_bit-and_not :
    (i x m : ℕ) → x < word_mod → test_bit (and_not x m) i ≡ (test_bit x i && not (test_bit m i))
unfolding pow2
test_bit-and_not i x m h = elim (Bool-cases (ltb i 32)) [
  | inl low ↦
      ground (
        arith,
        test_bit-and i x (bit_xor m word_max),
        test_bit-xor i m word_max,
        test_bit-ones 32 i,
      )
  | inr high ↦ ground (arith, test_bit-and i x (bit_xor m word_max), test_bit-high 32 x i)
]

-- Words with the same bits are equal.
eq_of_bits : (n a b : ℕ) → a ≤ n → b ≤ n → ((i : ℕ) → test_bit a i ≡ test_bit b i) → a ≡ b
unfolding test_bit
eq_of_bits zero a b p q h = omega arith
eq_of_bits (suc n) a b p q h =
    let low : a % 2 ≡ b % 2 = ground (arith, h 0) in
    let high : a / 2 ≡ b / 2 =
      eq_of_bits n (a / 2) (b / 2) (omega arith) (omega arith) (λ i. h (suc i)) in
    omega arith

pub eq_of_test_bit : (a b : ℕ) → ((i : ℕ) → test_bit a i ≡ test_bit b i) → a ≡ b
eq_of_test_bit a b h = eq_of_bits (a + b) a b (omega arith) (omega arith) h

bit_or-lt_pow2 : (k a b : ℕ) → a < pow2 k → b < pow2 k → bit_or a b < pow2 k
unfolding pow2
bit_or-lt_pow2 zero zero zero p q = omega (arith, bit_or-bitwise 0 0)
bit_or-lt_pow2 zero zero (suc b) p q = absurd (omega arith)
bit_or-lt_pow2 zero (suc a) b p q = absurd (omega arith)
bit_or-lt_pow2 (suc k) a b p q =
    omega (arith, or_low a b, bit_or-lt_pow2 k (a / 2) (b / 2) (omega arith) (omega arith))

pub bit_or-lt : (a b : ℕ) → a < word_mod → b < word_mod → bit_or a b < word_mod
unfolding pow2
bit_or-lt a b p q = bit_or-lt_pow2 32 a b p q

bit_and-le_fuel : (n a b : ℕ) → a ≤ n → bit_and a b ≤ a
bit_and-le_fuel n zero b h = omega (arith, bit_and-bitwise 0 b)
bit_and-le_fuel zero (suc a) b h = absurd (omega arith)
bit_and-le_fuel (suc n) (suc a) b h =
    omega (arith, and_low (suc a) b, bit_and-le_fuel n (suc a / 2) (b / 2) (omega arith))

pub bit_and-le : (a b : ℕ) → bit_and a b ≤ a
bit_and-le a b = bit_and-le_fuel a a b (omega arith)

pub test_bit-zero : (i : ℕ) → test_bit 0 i ≡ false
unfolding test_bit
test_bit-zero zero = refl
test_bit-zero (suc i) = test_bit-zero i
