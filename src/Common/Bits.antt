-- ===== src/Common/Bits.antt =====
-- Shifts and masks of C++ unsigned integers, and what they are as arithmetic.
use Prim.Native.Nat.{
  ℕ, zero, suc, ◌+◌, ◌*◌, ◌/◌, ◌%◌, ◌^◌, ◌≤◌, ◌<◌, min, bit_and, bit_or, bit_xor, digits, differ,
  bit_and-bitwise, bit_xor-bitwise,
}
use mathlib.Core.Path.{◌≡◌, refl, ap, ◌∙◌}
use mathlib.Core.Bool.{true}
use native.Mathlib.Omega.{arith}
use native.Mathlib.Decide.{dec_le}
use s4_mk1_usb2midi.Common.Tests.{◌==◌, ==_iff, passes_to, passes_to_sound}

-- The casts to `uint8_t` and `uint16_t`.
abbrev pub u8 : ℕ → ℕ
u8 n = n % 2 ^ 8

abbrev pub u16 : ℕ → ℕ
u16 n = n % 2 ^ 16

-- `x >> k`, a halving for each place.
abbrev pub shr : ℕ → ℕ → ℕ
shr x zero = x
shr x (suc k) = shr (x / 2) k

-- `(x >> k) & 0x01`.
abbrev pub bit_at : ℕ → ℕ → ℕ
bit_at x k = bit_and (shr x k) 1

abbrev pub IsByte : ℕ → Type 0
IsByte b = b < 256

-- The library computes these on a count of digits; a count above the first number makes no
-- difference.
module _ (z : ℕ → ℕ) (f : ℕ → ℕ → ℕ) where
  spare_digit : (n a b : ℕ) → a ≤ n → digits z f (suc n) a b ≡ digits z f n a b
  spare_digit zero zero b h = refl
  spare_digit (suc n) zero b h = refl
  spare_digit zero (suc a) b h = elim h [ ]
  spare_digit (suc n) (suc a) b h =
      ap (λ (t : ℕ). t * 2 + f (suc a % 2) (b % 2))
        (spare_digit n (suc a / 2) (b / 2) (omega arith))

  enough_digits : (n a b : ℕ) → a ≤ n → digits z f n a b ≡ digits z f a a b
  enough_digits zero zero b h = refl
  enough_digits zero (suc a) b h = elim h [ ]
  enough_digits (suc n) a b h = elim (dec_le a n) [
    | yes below ↦ spare_digit n a b below ∙ enough_digits n a b below
    | no above ↦ let top : suc n ≡ a = omega arith in ap (λ (m : ℕ). digits z f m a b) top
  ]

-- The lowest digit of `&` and of `^`.
bit_and_step : (a b : ℕ) → bit_and a b ≡ bit_and (a / 2) (b / 2) * 2 + min (a % 2) (b % 2)
bit_and_step zero b = omega (arith, bit_and-bitwise 0 b, bit_and-bitwise 0 (b / 2))
bit_and_step (suc a) b = omega (
  arith,
  bit_and-bitwise (suc a) b,
  bit_and-bitwise (suc a / 2) (b / 2),
  enough_digits (λ y. zero) min a (suc a / 2) (b / 2) (omega arith),
)

differ-lt : (x y : ℕ) → x < 2 → y < 2 → differ x y < 2
differ-lt zero y h k = k
differ-lt (suc zero) zero h k = omega arith
differ-lt (suc zero) (suc y) h k = omega arith
differ-lt (suc (suc x)) y h k = absurd (omega arith)

bit_xor_step : (a b : ℕ) → bit_xor a b ≡ bit_xor (a / 2) (b / 2) * 2 + differ (a % 2) (b % 2)
bit_xor_step zero b = omega (arith, bit_xor-bitwise 0 b, bit_xor-bitwise 0 (b / 2))
bit_xor_step (suc a) b = omega (
  arith,
  bit_xor-bitwise (suc a) b,
  bit_xor-bitwise (suc a / 2) (b / 2),
  enough_digits (λ y. y) differ a (suc a / 2) (b / 2) (omega arith),
)

and_digits-zero : (n a : ℕ) → digits (λ y. zero) min n a 0 ≡ 0
and_digits-zero zero a = refl
and_digits-zero (suc n) zero = refl
and_digits-zero (suc n) (suc a) = omega (arith, and_digits-zero n (suc a / 2))

-- Masks of low bits are remainders.
pub bit_and_1 : (a : ℕ) → bit_and a 0x01 ≡ a % 2
bit_and_1 a =
    omega (arith, bit_and_step a 1, bit_and-bitwise (a / 2) 0, and_digits-zero (a / 2) (a / 2))

bit_and_3 : (a : ℕ) → bit_and a 0x03 ≡ a % 4
bit_and_3 a = omega (arith, bit_and_step a 3, bit_and_1 (a / 2))

bit_and_7 : (a : ℕ) → bit_and a 0x07 ≡ a % 8
bit_and_7 a = omega (arith, bit_and_step a 7, bit_and_3 (a / 2))

pub bit_and_15 : (a : ℕ) → bit_and a 0x0f ≡ a % 16
bit_and_15 a = omega (arith, bit_and_step a 15, bit_and_7 (a / 2))

bit_and_31 : (a : ℕ) → bit_and a 0x1f ≡ a % 32
bit_and_31 a = omega (arith, bit_and_step a 31, bit_and_15 (a / 2))

bit_and_63 : (a : ℕ) → bit_and a 0x3f ≡ a % 64
bit_and_63 a = omega (arith, bit_and_step a 63, bit_and_31 (a / 2))

pub bit_and_127 : (a : ℕ) → bit_and a 0x7f ≡ a % 128
bit_and_127 a = omega (arith, bit_and_step a 127, bit_and_63 (a / 2))

pub bit_and_255 : (a : ℕ) → bit_and a 0xff ≡ a % 256
bit_and_255 a = omega (arith, bit_and_step a 255, bit_and_127 (a / 2))

pub shr_8 : (a : ℕ) → shr a 8 ≡ a / 256
shr_8 a = omega arith

-- The status byte of a control change: `0xB0 | c` is a sum.
status_table : passes_to 15 (λ c. bit_or 0xb0 c == 0xb0 + c) ≡ true
unfolding passes_to
status_table = refl

pub bit_or_status : (c : ℕ) → c < 16 → bit_or 0xb0 c ≡ 0xb0 + c
bit_or_status c h = (==_iff _ _).0 (passes_to_sound _ 15 c status_table (omega arith))

-- The bits of an exclusive or.
pub bit_at-lt : (a k : ℕ) → bit_at a k < 2
bit_at-lt a k = omega (arith, bit_and_1 (shr a k))

bit_xor_half : (a b : ℕ) → bit_xor a b / 2 ≡ bit_xor (a / 2) (b / 2)
bit_xor_half a b =
    omega (arith, bit_xor_step a b, differ-lt (a % 2) (b % 2) (omega arith) (omega arith))

pub bit_at-bit_xor : (a b k : ℕ) → bit_at (bit_xor a b) k ≡ differ (bit_at a k) (bit_at b k)
bit_at-bit_xor a b zero =
    rw (bit_and_1 (bit_xor a b), bit_and_1 a, bit_and_1 b)
      (omega (arith, bit_xor_step a b, differ-lt (a % 2) (b % 2) (omega arith) (omega arith)))
bit_at-bit_xor a b (suc k) = rw (bit_xor_half a b) (bit_at-bit_xor (a / 2) (b / 2) k)

differ-eq_zero : (x y : ℕ) → x < 2 → y < 2 → ((differ x y == 0) ≡ (x == y))
differ-eq_zero zero zero h k = refl
differ-eq_zero zero (suc y) h k = ground arith
differ-eq_zero (suc zero) zero h k = refl
differ-eq_zero (suc zero) (suc zero) h k = refl
differ-eq_zero (suc zero) (suc (suc y)) h k = absurd (omega arith)
differ-eq_zero (suc (suc x)) y h k = absurd (omega arith)

-- A bit of the difference mask is clear exactly when the two values agree there.
pub flipped_test : (a b k : ℕ) → (bit_at (bit_xor a b) k == 0) ≡ (bit_at a k == bit_at b k)
flipped_test a b k = rw (bit_at-bit_xor a b k) (differ-eq_zero _ _ (bit_at-lt a k) (bit_at-lt b k))

-- The value that its eight lowest bits spell.
abbrev pub from_bits : (ℕ → ℕ) → ℕ
from_bits f = f 0 + 2 * f 1 + 4 * f 2 + 8 * f 3 + 16 * f 4 + 32 * f 5 + 64 * f 6 + 128 * f 7

pub from_bits-bit_at : (a : ℕ) → a < 256 → from_bits (bit_at a) ≡ a
from_bits-bit_at a h =
    rw
      (
        bit_and_1 a,
        bit_and_1 (a / 2),
        bit_and_1 (a / 2 / 2),
        bit_and_1 (a / 2 / 2 / 2),
        bit_and_1 (a / 2 / 2 / 2 / 2),
        bit_and_1 (a / 2 / 2 / 2 / 2 / 2),
        bit_and_1 (a / 2 / 2 / 2 / 2 / 2 / 2),
        bit_and_1 (a / 2 / 2 / 2 / 2 / 2 / 2 / 2),
      )
      (omega arith)

-- A cast to `uint8_t` keeps the eight lowest bits.
pub bit_at-u8 : (x k : ℕ) → k < 8 → bit_at (u8 x) k ≡ bit_at x k
bit_at-u8 x k h = rw (bit_and_1 (shr (u8 x) k), bit_and_1 (shr x k)) (places k h)
  where
    places : (j : ℕ) → j < 8 → shr (u8 x) j % 2 ≡ shr x j % 2
    places zero h = omega arith
    places (suc zero) h = omega arith
    places (suc (suc zero)) h = omega arith
    places (suc (suc (suc zero))) h = omega arith
    places (suc (suc (suc (suc zero)))) h = omega arith
    places (suc (suc (suc (suc (suc zero))))) h = omega arith
    places (suc (suc (suc (suc (suc (suc zero)))))) h = omega arith
    places (suc (suc (suc (suc (suc (suc (suc zero))))))) h = omega arith
    places (suc (suc (suc (suc (suc (suc (suc (suc j)))))))) h = absurd (omega arith)
