-- ===== src/ClientTransaction/Sending.antt =====
-- What the client sends passes the check that the server makes, and carries its fields.
use trftp.Base.{
  ℕ, ◌+◌, ◌-◌, ◌≡◌, refl, ap, ◌∙◌, arith, true, List, ◌++◌, length, drop, length-append,
  take-append_exact,
}
use trftp.Message.{MessageId, TrftpMessage, header_size, overlay, message_bytes}
use trftp.Crc.{calculate_crc32}
use trftp.Integrity.{validate_message_integrity, IsSound-validate}
use trftp.Wire.{received, validate-received}
use trftp.ServerTransaction.{Address, Datagram}
use trftp.ClientTransaction.{sends, send_payload, blank_header}

-- The datagram of a control message.
abbrev pub control : MessageId → List ℕ → TrftpMessage → Address → Datagram
control id bytes raw addr =
    let header = blank_header id (length bytes) in
    let payload = overlay bytes raw.payload in
    record {
      msg = record {
        header = record header {
          crc32 =
              calculate_crc32 (message_bytes (record { header = header; payload = payload }))
                (header_size + length bytes) 0;
        };
        payload = payload;
      };
      len = header_size + length bytes;
      dest = addr;
    }

pub send_payload-control :
    (id : MessageId) (bytes : List ℕ) (raw : TrftpMessage) (addr : Address)
    → send_payload id bytes raw addr ≡ sends (control id bytes raw addr)
unfolding send_payload
send_payload-control id bytes raw addr = refl

-- It passes the check of whoever receives it.
pub control-validate :
    (stale : TrftpMessage) (id : MessageId) (bytes : List ℕ) (raw : TrftpMessage) (addr : Address)
    → let d = control id bytes raw addr in
      validate_message_integrity (received stale d) d.len ≡ true
control-validate stale id bytes raw addr =
    let d = control id bytes raw addr in
    validate-received stale d (length bytes) refl
      (omega (arith, length-append bytes (drop (length bytes) raw.payload)))
    ∙ IsSound-validate d.msg d.len (record {
      crc_matches = refl;
      magic_matches = refl;
      len_matches = refl;
      psn_below = omega arith;
    })

-- The payload that the receiver reads begins with the bytes that were written.
pub control-payload :
    (stale : TrftpMessage) (id : MessageId) (bytes : List ℕ) (raw : TrftpMessage) (addr : Address)
    → (received stale (control id bytes raw addr)).payload
      ≡ bytes ++ drop (length bytes) stale.payload
control-payload stale id bytes raw addr =
    let n = header_size + length bytes - header_size in
    ap (λ b. overlay b stale.payload)
      (take-append_exact n bytes (drop (length bytes) raw.payload) (omega arith))
