-- ===== src/Wire.antt =====
-- A datagram between `sendto` and `recvfrom`: what the receiver's message object holds, and that
-- `ValidateMessageIntegrity` depends on the transmitted bytes only.
use trftp.Base.{
  ℕ, ◌+◌, ◌-◌, ◌≤◌, ◌≡◌, refl, ap, sym, ◌∙◌, arith, ◌++◌, ◌==◌, length, take, drop, length-take,
  take-append_exact, take-append_add, ◌&&◌, not, leb, subst,
}
use trftp.Message.{
  TrftpHeader, TrftpMessage, header_bytes, message_bytes, header_size, overlay, trftp_magic,
}
use trftp.Crc.{calculate_crc32}
use trftp.Integrity.{validate_message_integrity, without_crc}
use trftp.ServerTransaction.{Datagram}

-- The object `raw` after `recvfrom` has stored a datagram of a whole header at least.
abbrev pub received : TrftpMessage → Datagram → TrftpMessage
received raw d = record {
  header = d.msg.header;
  payload = overlay (take (d.len - header_size) d.msg.payload) raw.payload;
}

pub length-header_bytes : (h : TrftpHeader) → length (header_bytes h) ≡ header_size
unfolding header_bytes
length-header_bytes h = refl

pub take-message_bytes :
    (m : TrftpMessage) (n : ℕ)
    → take (header_size + n) (message_bytes m) ≡ header_bytes m.header ++ take n m.payload
unfolding message_bytes
take-message_bytes m n =
    ap (λ k. take (k + n) (header_bytes m.header ++ m.payload)) (sym (length-header_bytes m.header))
    ∙ take-append_add (header_bytes m.header) m.payload n

-- The CRC over the header and n bytes of payload reads no byte behind them.
pub crc_prefix :
    (m m' : TrftpMessage) (n : ℕ)
    → m.header ≡ m'.header
    → take n m.payload ≡ take n m'.payload
    → calculate_crc32 (message_bytes m) (header_size + n) 0
      ≡ calculate_crc32 (message_bytes m') (header_size + n) 0
unfolding calculate_crc32
crc_prefix m m' n h p = rw (take-message_bytes m n, take-message_bytes m' n, h, p) refl

module _ (raw : TrftpMessage) (d : Datagram) (n : ℕ) (e : d.len ≡ header_size + n)
    (h : n ≤ length d.msg.payload) where
  payload-received : take n (received raw d).payload ≡ take n d.msg.payload
  payload-received =
      let k = d.len - header_size in
      take-append_exact n (take k d.msg.payload) (drop (length (take k d.msg.payload)) raw.payload)
        (omega (arith, length-take k d.msg.payload))
      ∙ ap (λ j. take j d.msg.payload) (omega arith)

  crc-received :
      calculate_crc32 (message_bytes (without_crc (received raw d))) d.len 0
      ≡ calculate_crc32 (message_bytes (without_crc d.msg)) d.len 0
  crc-received =
      subst
        (λ l.
          calculate_crc32 (message_bytes (without_crc (received raw d))) l 0
          ≡ calculate_crc32 (message_bytes (without_crc d.msg)) l 0)
        (sym e)
        (crc_prefix (without_crc (received raw d)) (without_crc d.msg) n refl payload-received)

  -- Reception keeps the verdict: the receiver's stale bytes do not count.
  pub validate-received :
      validate_message_integrity (received raw d) d.len ≡ validate_message_integrity d.msg d.len
  unfolding validate_message_integrity
  validate-received =
      ap
        (λ c.
          c == d.msg.header.crc32
          && (d.msg.header.magic == trftp_magic
              && (d.len == header_size + d.msg.header.pl
                  && not (leb d.msg.header.tpn d.msg.header.psn))))
        crc-received
