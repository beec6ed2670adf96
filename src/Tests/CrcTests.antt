-- ===== src/Tests/CrcTests.antt =====
-- The CRC's examples, on the nine bytes of the check value and on other byte strings.
use trftp.Base.{◌≡◌, refl, List, ℕ, [], ◌∷◌, some, arith}
use trftp.Crc.{calculate_crc32, calculate_file_crc32, crc_round, crc_loop, crc32_table}
use trftp.Crc.Reference.{crc32_of, AreBytes}
use trftp.Crc.File.{calculate_file_crc32-eq-crc32_of}

abbrev digits : List ℕ
digits = 49 ∷ 50 ∷ 51 ∷ 52 ∷ 53 ∷ 54 ∷ 55 ∷ 56 ∷ 57 ∷ []

digits-AreBytes : AreBytes digits
digits-AreBytes = ground arith

-- The published check value of CRC-32.
check_value : calculate_crc32 digits 9 0 ≡ 0xCBF4_3926
unfolding calculate_crc32 crc_round crc_loop crc32_table
check_value = refl

calculate_file_crc32-eq-crc32_of_example : calculate_file_crc32 (some digits) ≡ crc32_of digits
calculate_file_crc32-eq-crc32_of_example = calculate_file_crc32-eq-crc32_of digits digits-AreBytes
