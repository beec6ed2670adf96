-- ===== src/Message.antt =====
-- include/trftp/common.h: the message identifiers, the packed header and the message with its
-- payload union. A message is its header and the 1408 bytes of the union; the struct members of
-- the union are reads and writes of little-endian words at the start of these bytes.
pub mod Codec
use trftp.Base.{
  ℕ, suc, ◌+◌, ◌*◌, ◌/◌, ◌%◌, Bool, true, false, List, [], ◌∷◌, ◌++◌, ◌==◌, if◌then◌else◌, length,
  get_or, drop,
}

-- `enum class MessageId`; `other` is a value that is none of the enumerators.
pub data MessageId : Type 0 where
  ntf chk info rdy cxl data' rtx done fin : MessageId
  other : ℕ → MessageId

-- `static_cast<std::uint32_t>(id)`.
abbrev pub xid : MessageId → ℕ
xid ntf = 0x4500_000F
xid chk = 0x45FD_0001
xid info = 0x45FD_0002
xid rdy = 0x45FD_0003
xid cxl = 0x45FD_000C
xid data' = 0x45FD_000D
xid rtx = 0x45FD_000E
xid done = 0x45FD_000F
xid fin = 0x45FD_000A
xid (other n) = n

-- `MessageId(n)`.
unfoldable pub message_id : ℕ → MessageId
message_id n =
    if n == 0x4500_000F
    then ntf
    else if n == 0x45FD_0001
    then chk
    else if n == 0x45FD_0002
    then info
    else if n == 0x45FD_0003
    then rdy
    else if n == 0x45FD_000C
    then cxl
    else if n == 0x45FD_000D
    then data'
    else if n == 0x45FD_000E
    then rtx
    else if n == 0x45FD_000F
    then done
    else if n == 0x45FD_000A
    then fin
    else other n

-- `a == b` on MessageId.
abbrev pub same : MessageId → MessageId → Bool
same ntf ntf = true
same chk chk = true
same info info = true
same rdy rdy = true
same cxl cxl = true
same data' data' = true
same rtx rtx = true
same done done = true
same fin fin = true
same (other a) (other b) = a == b
same _ _ = false

abbrev pub trftp_magic : ℕ
trftp_magic = 0x524F_424C

pub record TrftpHeader : Type 0 where
  pub magic : ℕ
  pub spid : ℕ
  pub dpid : ℕ
  pub tpn : ℕ
  pub tpl : ℕ
  pub xid : ℕ
  pub crc32 : ℕ
  pub psn : ℕ
  pub pl : ℕ

pub record TrftpMessage : Type 0 where
  pub header : TrftpHeader
  pub payload : List ℕ

-- `sizeof(TrftpHeader)`, and `sizeof(TrftpMessage::payload)`, which is `sizeof(TrftpData)`.
abbrev pub header_size : ℕ
header_size = 32

abbrev pub payload_size : ℕ
payload_size = 1408

abbrev pub u16_bytes : ℕ → List ℕ
u16_bytes n = n % 256 ∷ n / 256 % 256 ∷ []

abbrev pub u32_bytes : ℕ → List ℕ
u32_bytes n = n % 256 ∷ n / 256 % 256 ∷ n / 65536 % 256 ∷ n / 16777216 % 256 ∷ []

-- The word at an offset of the union.
abbrev pub word_at : ℕ → List ℕ → ℕ
word_at i p =
    get_or p i 0
    + 256 * get_or p (suc i) 0
    + 65536 * get_or p (suc (suc i)) 0
    + 16777216 * get_or p (suc (suc (suc i))) 0

-- Bytes written at the start of the union; the bytes behind them keep what they held.
abbrev pub overlay : List ℕ → List ℕ → List ℕ
overlay bytes p = bytes ++ drop (length bytes) p

unfoldable pub header_bytes : TrftpHeader → List ℕ
header_bytes h =
    u32_bytes h.magic
    ++ (u16_bytes h.spid
        ++ (u16_bytes h.dpid
            ++ (u32_bytes h.tpn
                ++ (u32_bytes h.tpl
                    ++ (u32_bytes h.xid
                        ++ (u32_bytes h.crc32 ++ (u32_bytes h.psn ++ u32_bytes h.pl)))))))

-- The message as the bytes of its object, `reinterpret_cast<std::uint8_t *>(&msg)`.
unfoldable pub message_bytes : TrftpMessage → List ℕ
message_bytes m = header_bytes m.header ++ m.payload
