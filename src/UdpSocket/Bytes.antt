-- ===== src/UdpSocket/Bytes.antt =====
-- A message as bytes: its header read back, and what `recvfrom` stores of a datagram.
use mathlib.Core.Path.{ap₂}
use trftp.Base.{
  ℕ, ◌+◌, ◌-◌, ◌≤◌, ◌<◌, ◌≡◌, refl, ap, ◌∙◌, arith, List, ◌++◌, length, take, drop, u32_mod,
  length-take, length-append, take_all, [], ◌∷◌,
}
use trftp.Message.{
  TrftpHeader, TrftpMessage, header_bytes, message_bytes, header_size, overlay, word_at,
}
use trftp.Wire.{received, take-message_bytes, length-header_bytes}
use trftp.ServerTransaction.{Datagram, Address}
use trftp.UdpSocket.{header_of, half_at, stored, message_size, receive, got, returns}
use trftp.ClientTransaction.{datagram}

-- Each field fits into its place in the packed header.
pub record Fits (h : TrftpHeader) : Type 0 where
  pub magic : h.magic < u32_mod
  pub spid : h.spid < 65536
  pub dpid : h.dpid < 65536
  pub tpn : h.tpn < u32_mod
  pub tpl : h.tpl < u32_mod
  pub xid : h.xid < u32_mod
  pub crc32 : h.crc32 < u32_mod
  pub psn : h.psn < u32_mod
  pub pl : h.pl < u32_mod

-- The header's 32 bytes, whatever follows them, give every field back.
pub header_of-header_bytes :
    (h : TrftpHeader) (rest : List ℕ) → Fits h → header_of (header_bytes h ++ rest) ≡ h
unfolding header_bytes
header_of-header_bytes h rest f =
    let b = header_bytes h ++ rest in
    let p0 : word_at 0 b ≡ h.magic = omega (arith, f) in
    let p1 : half_at 4 b ≡ h.spid = omega (arith, f) in
    let p2 : half_at 6 b ≡ h.dpid = omega (arith, f) in
    let p3 : word_at 8 b ≡ h.tpn = omega (arith, f) in
    let p4 : word_at 12 b ≡ h.tpl = omega (arith, f) in
    let p5 : word_at 16 b ≡ h.xid = omega (arith, f) in
    let p6 : word_at 20 b ≡ h.crc32 = omega (arith, f) in
    let p7 : word_at 24 b ≡ h.psn = omega (arith, f) in
    let p8 : word_at 28 b ≡ h.pl = omega (arith, f) in
    λ i. record {
      magic = p0 i;
      spid = p1 i;
      dpid = p2 i;
      tpn = p3 i;
      tpl = p4 i;
      xid = p5 i;
      crc32 = p6 i;
      psn = p7 i;
      pl = p8 i;
    }

abbrev message : TrftpHeader → List ℕ → TrftpMessage
message h p = record { header = h; payload = p }

header_rest : (h : TrftpHeader) (rest : List ℕ) → drop header_size (header_bytes h ++ rest) ≡ rest
unfolding header_bytes
header_rest h rest = refl

stored_bytes :
    (raw : TrftpMessage) (h : TrftpHeader) (p : List ℕ)
    → (header_bytes h ++ p) ++ drop (length (header_bytes h ++ p)) (message_bytes raw)
      ≡ header_bytes h ++ overlay p raw.payload
unfolding header_bytes message_bytes
stored_bytes raw h p = refl

stored_split :
    (raw : TrftpMessage) (h : TrftpHeader) (p : List ℕ)
    → Fits h
    → stored raw (header_bytes h ++ p) ≡ message h (overlay p raw.payload)
unfolding stored
stored_split raw h p f =
    ap (λ b. message (header_of b) (drop header_size b)) (stored_bytes raw h p)
    ∙ ap₂ message (header_of-header_bytes h (overlay p raw.payload) f)
        (header_rest h (overlay p raw.payload))

-- What `recvfrom` stores of the bytes that `sendto` has sent is the header and the payload bytes of
-- the message, over the old payload.
stored-received :
    (raw : TrftpMessage) (d : Datagram) (n : ℕ)
    → Fits d.msg.header
    → d.len ≡ header_size + n
    → stored raw (take d.len (message_bytes d.msg)) ≡ received raw d
stored-received raw d n f e =
    ap (stored raw) (ap (λ l. take l (message_bytes d.msg)) e ∙ take-message_bytes d.msg n)
    ∙ stored_split raw d.msg.header (take n d.msg.payload) f
    ∙ ap (λ k. message d.msg.header (overlay (take k d.msg.payload) raw.payload)) (omega arith)

-- A datagram that `Send` can transmit whole: its header's fields fit, it has a header at least, it
-- is not longer than a message, and the message holds its payload.
pub record IsTransmittable (d : Datagram) : Type 0 where
  pub fits : Fits d.msg.header
  pub has_header : header_size ≤ d.len
  pub bounded : d.len ≤ message_size
  pub filled : d.len - header_size ≤ length d.msg.payload

-- The bytes that `sendto` is given.
abbrev pub wire_bytes : Datagram → List ℕ
wire_bytes d = take d.len (message_bytes d.msg)

length-wire_bytes : (d : Datagram) → IsTransmittable d → length (wire_bytes d) ≡ d.len
unfolding message_bytes
length-wire_bytes d v = omega (
  arith,
  v,
  length-take d.len (header_bytes d.msg.header ++ d.msg.payload),
  length-append (header_bytes d.msg.header) d.msg.payload,
  length-header_bytes d.msg.header,
)

receive-nonempty :
    (raw : TrftpMessage) (bytes : List ℕ) (addr : Address)
    → 0 < length bytes
    → length bytes ≤ message_size
    → receive raw (got bytes addr) ≡ returns (datagram (stored raw bytes) (length bytes) addr)
unfolding receive
receive-nonempty raw [] addr h small = absurd (omega arith)
receive-nonempty raw (b ∷ bs) addr h small =
    ap (λ l. returns (datagram (stored raw l) (length l) addr))
      (take_all message_size (b ∷ bs) small)

-- What one side hands to `Send`, the other gets from `Receive`: the same header, the same payload
-- bytes in front of the old ones, and the length.
pub receive-sent :
    (raw : TrftpMessage) (d : Datagram) (addr : Address)
    → IsTransmittable d
    → receive raw (got (wire_bytes d) addr) ≡ returns (datagram (received raw d) d.len addr)
receive-sent raw d addr v =
    let n = length-wire_bytes d v in
    receive-nonempty raw (wire_bytes d) addr (omega (arith, v)) (omega (arith, v))
    ∙ ap₂ (λ m k. returns (datagram m k addr))
        (stored-received raw d (d.len - header_size) v.fits (omega (arith, v))) n
