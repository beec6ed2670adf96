-- ===== src/Crc/Reference.antt =====
-- The bit-serial CRC-32 with the reflected polynomial 0xEDB88320, as an independent description,
-- and the table-driven `CalculateCrc32` against it.
use Prim.Native.Nat.{bit_xor}
use trftp.Base.{
  ℕ, zero, suc, ◌*◌, ◌-◌, ◌/◌, ◌%◌, ◌^◌, ◌<◌, ◌≡◌, refl, arith, ap, Bool, true, ◌&&◌, List, [], ◌∷◌,
  ◌==◌, ltb, ltb→lt, ==_iff, if◌then◌else◌, get_or, u32_mod, u32_max, length, take_all, ◌∙◌, sym,
}
use trftp.Crc.{crc32_table, crc_round, crc_loop, calculate_crc32}
use native.Mathlib.Nat.{le_refl}
use trftp.Crc.Bits.{
  double_shift, xor_half, xor_parity, xor_right_comm, xor-zero, xor-lt, xor_low_high,
}

abbrev polynomial : ℕ
polynomial = 0xEDB8_8320

-- One bit: shift right, and subtract the polynomial where a 1 was shifted out.
shift_bit : ℕ → ℕ
shift_bit x = if x % 2 == 0 then x / 2 else bit_xor (x / 2) polynomial

shift_bits : ℕ → ℕ → ℕ
shift_bits zero x = x
shift_bits (suc n) x = shift_bits n (shift_bit x)

-- The bytes enter one after the other, each followed by eight shifts.
pub bitwise_crc : List ℕ → ℕ → ℕ
bitwise_crc [] crc = crc
bitwise_crc (b ∷ bs) crc = bitwise_crc bs (shift_bits 8 (bit_xor crc b))

pub crc32_of : List ℕ → ℕ
crc32_of bytes = u32_max - bitwise_crc bytes u32_max

-- A byte string.
abbrev pub AreBytes : List ℕ → Type 0
AreBytes [] = Unit {0}
AreBytes (b ∷ bs) = (b < 256) × AreBytes bs

-- Whether a test holds of every number below a bound.
holds_to : (ℕ → Bool) → ℕ → Bool
holds_to test zero = true
holds_to test (suc k) = holds_to test k && test k

holds_to_elim : (test : ℕ → Bool) (k : ℕ) → holds_to test k ≡ true → (i : ℕ) → i < k → test i ≡ true
unfolding holds_to
holds_to_elim test zero h i lt = absurd (omega arith)
holds_to_elim test (suc k) h i lt = ground (arith, holds_to_elim test k _ i)

table_check : holds_to (λ i. get_or crc32_table i 0 == shift_bits 8 i) 256 ≡ true
unfolding holds_to crc32_table shift_bits shift_bit
table_check = refl

table_entry : (i : ℕ) → i < 256 → get_or crc32_table i 0 ≡ shift_bits 8 i
table_entry i h =
    (==_iff _ _).0
      (holds_to_elim (λ i. get_or crc32_table i 0 == shift_bits 8 i) 256 table_check i h)

table_sizes : holds_to (λ i. ltb (get_or crc32_table i 0) u32_mod) 256 ≡ true
unfolding holds_to crc32_table
table_sizes = refl

table_lt : (i : ℕ) → i < 256 → get_or crc32_table i 0 < u32_mod
table_lt i h =
    ltb→lt _ _ (holds_to_elim (λ i. ltb (get_or crc32_table i 0) u32_mod) 256 table_sizes i h)

-- A part without its lowest bit passes through a shift.
shift_bit-xor : (y z : ℕ) → shift_bit (bit_xor y (2 * z)) ≡ bit_xor (shift_bit y) z
unfolding shift_bit
shift_bit-xor y z =
    ground (arith, xor_half y (2 * z), xor_parity y (2 * z), xor_right_comm (y / 2) z polynomial)

shift_bits-xor : (n y z : ℕ) → shift_bits n (bit_xor y (z * 2 ^ n)) ≡ bit_xor (shift_bits n y) z
unfolding shift_bits
shift_bits-xor zero y z = ap (bit_xor y) (omega arith)
shift_bits-xor (suc n) y z =
    rw (double_shift z n, shift_bit-xor y (z * 2 ^ n)) (shift_bits-xor n (shift_bit y) z)

shift_byte : (x : ℕ) → shift_bits 8 x ≡ bit_xor (shift_bits 8 (x % 256)) (x / 256)
shift_byte x = ap (shift_bits 8) split ∙ shift_bits-xor 8 (x % 256) (x / 256)
  where
    split : x ≡ bit_xor (x % 256) (x / 256 * 2 ^ 8)
    split = omega (arith, xor_low_high 8 (x % 256) (x / 256) (omega arith))

xor_quarter : (a b : ℕ) → bit_xor a b / 4 ≡ bit_xor (a / 4) (b / 4)
xor_quarter a b = ground (arith, xor_half a b, xor_half (a / 2) (b / 2))

xor_sixteenth : (a b : ℕ) → bit_xor a b / 16 ≡ bit_xor (a / 16) (b / 16)
xor_sixteenth a b = ground (arith, xor_quarter a b, xor_quarter (a / 4) (b / 4))

-- A byte does not reach the bits above it.
xor_byte_high : (crc b : ℕ) → b < 256 → bit_xor crc b / 256 ≡ crc / 256
xor_byte_high crc b h =
    ground (arith, xor_sixteenth crc b, xor_sixteenth (crc / 16) (b / 16), xor-zero (crc / 256))

crc_round-eq : (crc b : ℕ) → b < 256 → crc_round crc b ≡ shift_bits 8 (bit_xor crc b)
unfolding crc_round
crc_round-eq crc b h =
    rw (table_entry (bit_xor crc b % 256) (omega arith), ← xor_byte_high crc b h)
      (sym (shift_byte (bit_xor crc b)))

crc_loop-eq :
    (bytes : List ℕ) (crc : ℕ) → AreBytes bytes → crc_loop bytes crc ≡ bitwise_crc bytes crc
unfolding crc_loop bitwise_crc
crc_loop-eq [] crc h = refl
crc_loop-eq (b ∷ bs) crc h = rw (crc_round-eq crc b h.0) (crc_loop-eq bs _ h.1)

-- On every byte string, `CalculateCrc32` with the initial value 0 is the bit-serial CRC-32.
pub calculate_crc32-eq-crc32_of :
    (bytes : List ℕ) → AreBytes bytes → calculate_crc32 bytes (length bytes) 0 ≡ crc32_of bytes
unfolding calculate_crc32 crc32_of
calculate_crc32-eq-crc32_of bytes h =
    rw (take_all (length bytes) bytes (le_refl _), crc_loop-eq bytes u32_max h)

-- The running value stays a uint32_t.
crc_round-lt : (crc b : ℕ) → crc < u32_mod → crc_round crc b < u32_mod
unfolding crc_round
crc_round-lt crc b h =
    xor-lt 32 _ (crc / 256) (table_lt (bit_xor crc b % 256) (omega arith)) (omega arith)

pub crc_loop-lt : (bytes : List ℕ) (crc : ℕ) → crc < u32_mod → crc_loop bytes crc < u32_mod
unfolding crc_loop
crc_loop-lt [] crc h = h
crc_loop-lt (b ∷ bs) crc h = crc_loop-lt bs (crc_round crc b) (crc_round-lt crc b h)
