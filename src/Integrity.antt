-- ===== src/Integrity.antt =====
-- `ValidateMessageIntegrity` of src/server/server_transaction.cpp and of
-- src/client/client_transaction.cpp, whose bodies are the same.
use trftp.Base.{ℕ, ◌+◌, ◌≡◌, Bool, true, ◌&&◌, not, ◌==◌, leb, ◌<◌, arith}
use trftp.Message.{TrftpMessage, message_bytes, trftp_magic, header_size}
use trftp.Crc.{calculate_crc32}

-- The message with the CRC field of its header set to 0.
abbrev pub without_crc : TrftpMessage → TrftpMessage
without_crc m = record m { header = record (m.header) { crc32 = 0 } }

unfoldable pub validate_message_integrity : TrftpMessage → ℕ → Bool
validate_message_integrity m len =
    calculate_crc32 (message_bytes (without_crc m)) len 0 == m.header.crc32
    && (m.header.magic == trftp_magic
        && (len == header_size + m.header.pl && not (leb m.header.tpn m.header.psn)))

-- What the handlers rely on behind a passed check: the subtraction `len - sizeof(TrftpHeader)` is
-- exact and gives `pl`, and `tpn` is not 0.
pub record IsSound (m : TrftpMessage) (len : ℕ) : Type 0 where
  pub crc_matches : calculate_crc32 (message_bytes (without_crc m)) len 0 ≡ m.header.crc32
  pub magic_matches : m.header.magic ≡ trftp_magic
  pub len_matches : len ≡ header_size + m.header.pl
  pub psn_below : m.header.psn < m.header.tpn

pub validate-IsSound :
    (m : TrftpMessage) (len : ℕ) → validate_message_integrity m len ≡ true → IsSound m len
unfolding validate_message_integrity
validate-IsSound m len h = ground arith

pub IsSound-validate :
    (m : TrftpMessage) (len : ℕ) → IsSound m len → validate_message_integrity m len ≡ true
unfolding validate_message_integrity
IsSound-validate m len h = ground arith
