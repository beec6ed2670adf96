-- ===== src/Crc/Bits.antt =====
-- Laws of `^` on native numbers, each by recursion on the binary digits.
use Prim.Native.Nat.{digits, differ, bit_xor, bit_xor-bitwise}
use native.Mathlib.Nat.{le_refl, pow-suc}
use trftp.Base.{ℕ, zero, suc, ◌+◌, ◌*◌, ◌/◌, ◌%◌, ◌^◌, ◌≤◌, ◌<◌, ◌≡◌, refl, arith, ap}

xor_digits_fuel :
    (n m a b : ℕ) → a ≤ n → a ≤ m → digits (λ y. y) differ n a b ≡ digits (λ y. y) differ m a b
xor_digits_fuel zero zero a b p q = refl
xor_digits_fuel zero (suc m) zero b p q = refl
xor_digits_fuel zero (suc m) (suc a) b p q = absurd (omega arith)
xor_digits_fuel (suc n) zero zero b p q = refl
xor_digits_fuel (suc n) zero (suc a) b p q = absurd (omega arith)
xor_digits_fuel (suc n) (suc m) zero b p q = refl
xor_digits_fuel (suc n) (suc m) (suc a) b p q =
    rw (xor_digits_fuel n m (suc a / 2) (b / 2) (omega arith) (omega arith))

zero-xor : (b : ℕ) → bit_xor 0 b ≡ b
zero-xor b = bit_xor-bitwise 0 b

differ_below : (x y : ℕ) → x < 2 → y < 2 → differ x y ≡ (x + y) % 2
differ_below zero zero h k = refl
differ_below zero (suc zero) h k = refl
differ_below zero (suc (suc y)) h k = absurd (omega arith)
differ_below (suc zero) zero h k = refl
differ_below (suc zero) (suc zero) h k = refl
differ_below (suc zero) (suc (suc y)) h k = absurd (omega arith)
differ_below (suc (suc x)) y h k = absurd (omega arith)

pub bit_xor_step : (a b : ℕ) → bit_xor a b ≡ bit_xor (a / 2) (b / 2) * 2 + (a % 2 + b % 2) % 2
bit_xor_step zero b = omega (arith, zero-xor b, zero-xor (b / 2))
bit_xor_step (suc a) b = omega (
  arith,
  bit_xor-bitwise (suc a) b,
  bit_xor-bitwise (suc a / 2) (b / 2),
  differ_below (suc a % 2) (b % 2) (omega arith) (omega arith),
  xor_digits_fuel a (suc a / 2) (suc a / 2) (b / 2) (omega arith) (le_refl _),
)

pub xor_half : (a b : ℕ) → bit_xor a b / 2 ≡ bit_xor (a / 2) (b / 2)
xor_half a b = omega (arith, bit_xor_step a b)

pub xor_parity : (a b : ℕ) → bit_xor a b % 2 ≡ (a % 2 + b % 2) % 2
xor_parity a b = omega (arith, bit_xor_step a b)

xor_three :
    (a b c : ℕ)
    → bit_xor (bit_xor a b) c
      ≡ bit_xor (bit_xor (a / 2) (b / 2)) (c / 2) * 2 + (a % 2 + b % 2 + c % 2) % 2
xor_three a b c = rw (bit_xor_step (bit_xor a b) c, xor_half a b, xor_parity a b) (omega arith)

xor_right_comm_fuel :
    (n a b c : ℕ) → a ≤ n → b ≤ n → c ≤ n → bit_xor (bit_xor a b) c ≡ bit_xor (bit_xor a c) b
xor_right_comm_fuel zero zero zero zero p q r = refl
xor_right_comm_fuel zero (suc a) b c p q r = absurd (omega arith)
xor_right_comm_fuel zero a (suc b) c p q r = absurd (omega arith)
xor_right_comm_fuel zero a b (suc c) p q r = absurd (omega arith)
xor_right_comm_fuel (suc n) a b c p q r = omega (
  arith,
  xor_three a b c,
  xor_three a c b,
  xor_right_comm_fuel n (a / 2) (b / 2) (c / 2) (omega arith) (omega arith) (omega arith),
)

pub xor_right_comm : (a b c : ℕ) → bit_xor (bit_xor a b) c ≡ bit_xor (bit_xor a c) b
xor_right_comm a b c =
    xor_right_comm_fuel (a + b + c) a b c (omega arith) (omega arith) (omega arith)

xor-zero_fuel : (n a : ℕ) → a ≤ n → bit_xor a 0 ≡ a
xor-zero_fuel zero zero h = refl
xor-zero_fuel zero (suc a) h = absurd (omega arith)
xor-zero_fuel (suc n) a h = omega (arith, bit_xor_step a 0, xor-zero_fuel n (a / 2) (omega arith))

pub xor-zero : (a : ℕ) → bit_xor a 0 ≡ a
xor-zero a = xor-zero_fuel a a (le_refl _)

-- Two numbers of k binary digits give one of k binary digits.
pub xor-lt : (k a b : ℕ) → a < 2 ^ k → b < 2 ^ k → bit_xor a b < 2 ^ k
xor-lt zero zero zero p q = omega (arith, zero-xor 0)
xor-lt zero (suc a) b p q = absurd (omega arith)
xor-lt zero a (suc b) p q = absurd (omega arith)
xor-lt (suc k) a b p q = omega (
  arith,
  pow-suc 2 k,
  bit_xor_step a b,
  xor-lt k (a / 2) (b / 2) (omega (arith, pow-suc 2 k)) (omega (arith, pow-suc 2 k)),
)

pub double_shift : (hi k : ℕ) → hi * 2 ^ suc k ≡ 2 * (hi * 2 ^ k)
double_shift hi k = omega (arith, ap (λ (t : ℕ). hi * t) (pow-suc 2 k))

-- Where no digit is set in both numbers, `^` is a sum: the low part of a number and the rest.
pub xor_low_high : (k lo hi : ℕ) → lo < 2 ^ k → bit_xor lo (hi * 2 ^ k) ≡ lo + hi * 2 ^ k
xor_low_high zero zero hi h = rw zero-xor (omega arith)
xor_low_high zero (suc lo) hi h = absurd (omega arith)
xor_low_high (suc k) lo hi h =
    rw (double_shift hi k)
      (ground (arith, pow-suc 2 k, bit_xor_step lo (2 * (hi * 2 ^ k)), xor_low_high k (lo / 2) hi))
