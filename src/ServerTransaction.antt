-- ===== src/ServerTransaction.antt =====
-- src/server/server_transaction.cpp and include/trftp/server/server_transaction.h: the state of
-- one transfer on the server, the messages that it sends and the messages that it accepts.
-- The thread of `SendFileAsync` is in Sender. A local `TrftpMessage msg;` is not initialised:
-- what it holds before the first write is the argument `raw`.
pub mod Sender
pub mod Header
pub mod Receive
pub mod Threads
pub mod Created
use Prim.Native.String.{String}
use trftp.Base.{
  ℕ, ◌+◌, ◌-◌, ◌*◌, ◌/◌, ◌%◌, Bool, true, false, Option, none, some, List, [], ◌∷◌, ◌++◌, ◌==◌, ltb,
  leb, not, ◌&&◌, if◌then◌else◌, length, u32, u32_max, sub32,
}
use trftp.Message.{
  MessageId, ntf, chk, info, rdy, cxl, data', rtx, done, fin, other, xid, message_id, same,
  TrftpHeader, TrftpMessage, trftp_magic, header_size, payload_size, u32_bytes, word_at, overlay,
  message_bytes,
}
use trftp.Crc.{calculate_crc32, calculate_file_crc32}
use trftp.Integrity.{validate_message_integrity}

-- `sockaddr_in`: the address and the port.
pub record Address : Type 0 where
  pub ip : ℕ
  pub port : ℕ

-- The bytes of the file at a path, `none` where there is none to open.
abbrev pub Disk : Type 0
Disk = String → Option (List ℕ)

pub record Datagram : Type 0 where
  pub msg : TrftpMessage
  pub len : ℕ
  pub dest : Address

pub record ServerTransaction : Type 0 where
  pub file_path : String
  pub new_file_version : ℕ
  pub new_file_size : ℕ
  pub new_file_crc32 : ℕ
  pub status : MessageId
  pub device_id : ℕ
  pub client_address : Address
  pub total_packet_number : ℕ
  pub packet_sequence_number : ℕ
  pub retransmit_psn : ℕ
  pub cur_file_version : ℕ
  pub inter_packet_gap : ℕ

-- The constructor's fields for a file of these bytes. Its sum of packets is on uint32_t.
unfoldable pub new_transaction : Address → String → ℕ → ℕ → List ℕ → ServerTransaction
new_transaction addr path version device c = record {
  file_path = path;
  new_file_version = version;
  new_file_size = u32 (length c);
  new_file_crc32 = calculate_file_crc32 (some c);
  status = ntf;
  device_id = device;
  client_address = addr;
  total_packet_number = sub32 (u32 (u32 (length c) + payload_size)) 1 / payload_size;
  packet_sequence_number = 0;
  retransmit_psn = u32_max;
  cur_file_version = 0;
  inter_packet_gap = 100;
}

-- The move constructor: the new transaction, and what is left of the old one.
unfoldable pub move_transaction : ServerTransaction → ServerTransaction × ServerTransaction
move_transaction from = (
  record {
    file_path = from.file_path;
    new_file_version = from.new_file_version;
    new_file_size = from.new_file_size;
    new_file_crc32 = from.new_file_crc32;
    status = from.status;
    device_id = from.device_id;
    client_address = from.client_address;
    total_packet_number = from.total_packet_number;
    packet_sequence_number = from.packet_sequence_number;
    retransmit_psn = from.retransmit_psn;
    cur_file_version = from.cur_file_version;
    inter_packet_gap = from.inter_packet_gap;
  },
  record from { file_path = "" },
)

create_from : Address → String → ℕ → ℕ → Option (List ℕ) → Option ServerTransaction
create_from addr path version device none = none
create_from addr path version device (some c) = some (new_transaction addr path version device c)

-- `ServerTransaction(addr, file_path, file_version, device_id)`; `none` is the exception that
-- `file_size` throws for a missing file.
pub create : Disk → Address → String → ℕ → ℕ → Option ServerTransaction
unfolding create_from
create disk addr path version device = create_from addr path version device (disk path)

-- `tpn` and `pl` as `CompleteHeader` computes them.
abbrev pub header_tpn : ℕ → ℕ
header_tpn tpl = if tpl == 0 then 1 else u32 ((tpl + payload_size - 1) / payload_size)

abbrev pub header_pl : ℕ → ℕ → ℕ
header_pl tpl psn = if psn == sub32 (header_tpn tpl) 1 then tpl % payload_size else payload_size

-- The header with its CRC field still 0.
abbrev pub blank_header : ServerTransaction → MessageId → ℕ → ℕ → TrftpHeader
blank_header t id tpl psn = record {
  magic = trftp_magic;
  spid = 0xFD00;
  dpid = t.device_id % 65536;
  tpn = header_tpn tpl;
  tpl = tpl;
  xid = xid id;
  crc32 = 0;
  psn = psn;
  pl = header_pl tpl psn;
}

-- `CompleteHeader(msg, xid, tpl, psn)`.
unfoldable pub complete_header : ServerTransaction → TrftpMessage → MessageId → ℕ → ℕ → TrftpMessage
complete_header t msg id tpl psn =
    let blank : TrftpMessage = record msg { header = blank_header t id tpl psn } in
    record blank {
      header = record (blank_header t id tpl psn) {
        crc32 = calculate_crc32 (message_bytes blank) (header_size + header_pl tpl psn) 0;
      };
    }

-- What `SendMessage` does beside the change of state.
pub data Outcome : Type 0 where
  discarded : Outcome
  sent : Datagram → Outcome
  starts_sender : Outcome

-- The part of `SendMessage` behind the switch: header and `udp_socket.Send`.
unfoldable pub send_payload : MessageId → List ℕ → TrftpMessage → ServerTransaction → Outcome
send_payload id bytes raw t = sent (record {
  msg = complete_header t (record raw { payload = overlay bytes raw.payload }) id (length bytes) 0;
  len = header_size + length bytes;
  dest = t.client_address;
})

-- `SendMessage(id, udp_socket)`.
unfoldable pub send_message :
    MessageId → TrftpMessage → ServerTransaction → ServerTransaction × Outcome
unfolding send_payload
send_message ntf raw t =
    let t' = record t { status = ntf } in
    (t', send_payload ntf (u32_bytes t'.new_file_version) raw t')
send_message info raw t =
    let t' = record t { status = info } in
    (
      t',
      send_payload info
          (u32_bytes t'.new_file_version
            ++ (u32_bytes t'.new_file_size ++ u32_bytes t'.new_file_crc32))
          raw t',
    )
send_message data' raw t = (record t { status = data' }, starts_sender)
send_message fin raw t = let t' = record t { status = fin } in (t', send_payload fin [] raw t')
send_message cxl raw t = let t' = record t { status = cxl } in (t', send_payload cxl [] raw t')
send_message _ raw t = (t, discarded)

-- The five overloads of `ValidateMessage`.
abbrev pub validate_chk : ℕ → Bool
validate_chk payload_len = payload_len == 4

abbrev pub validate_rdy : ℕ → Bool
validate_rdy payload_len = payload_len == 12

abbrev pub validate_done : List ℕ → ℕ → ServerTransaction → Bool
validate_done p payload_len t =
    payload_len == 12
    && (word_at 0 p == t.new_file_version
        && (word_at 4 p == t.new_file_size && word_at 8 p == t.new_file_crc32))

abbrev pub validate_cxl : ℕ → Bool
validate_cxl payload_len = payload_len == 0

abbrev pub validate_rtx : List ℕ → ℕ → ℕ → Bool
validate_rtx p payload_len psn = payload_len == 4 && leb (word_at 0 p) psn

-- `std::clamp(gap, TRAN_IPG_MIN, TRAN_IPG_MAX)`.
abbrev pub clamp_gap : ℕ → ℕ
clamp_gap gap = if ltb gap 100 then 100 else if ltb 300 gap then 300 else gap

-- The switch of `OnReceive`, with the two lines behind it.
unfoldable pub dispatch : MessageId → List ℕ → ℕ → ServerTransaction → ServerTransaction
dispatch chk p payload_len t =
    if not (same t.status ntf)
    then t
    else if not (validate_chk payload_len)
    then t
    else record t { cur_file_version = word_at 0 p; status = chk }
dispatch rdy p payload_len t =
    if not (same t.status info)
    then t
    else if not (validate_rdy payload_len)
    then t
    else record t { inter_packet_gap = clamp_gap (word_at 8 p); status = rdy }
dispatch done p payload_len t =
    if not (same t.status data')
    then t
    else if not (t.packet_sequence_number == t.total_packet_number)
    then t
    else if not (validate_done p payload_len t)
    then t
    else record t { status = done }
dispatch cxl p payload_len t =
    if not (validate_cxl payload_len) then t else record t { status = cxl }
dispatch rtx p payload_len t =
    if not (same t.status data')
    then t
    else if not (validate_rtx p payload_len t.packet_sequence_number)
    then t
    else record t { retransmit_psn = word_at 0 p }
dispatch _ p payload_len t = t

-- `OnReceive(msg, len, addr)`.
unfoldable pub on_receive : TrftpMessage → ℕ → Address → ServerTransaction → ServerTransaction
on_receive msg len addr t =
    let t' = record t { client_address = addr } in
    if not (validate_message_integrity msg len)
    then t'
    else dispatch (message_id msg.header.xid) msg.payload (len - header_size) t'
