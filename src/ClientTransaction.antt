-- ===== src/ClientTransaction.antt =====
-- src/client/client_transaction.cpp and include/trftp/client/client_transaction.h: the state of
-- one transfer on the client, its handlers and its receive loop. What a handler does beside the
-- change of state is a list of effects, in order. A local `TrftpMessage msg;` is not initialised:
-- what it holds before the first write, and whether the file can be opened and written, comes with
-- each call as an `Env`. `new_file_path_` is always the same path; the file there is a field.
pub mod Sending
pub mod Invariant
pub mod Delivery
pub mod Quiet
use trftp.Base.{
  ℕ, ◌+◌, ◌-◌, ◌*◌, ◌/◌, ◌%◌, Bool, true, false, Option, none, some, List, [], ◌∷◌, ◌++◌, ◌==◌, ltb,
  leb, not, ◌&&◌, if◌then◌else◌, length, take, u32, sub32,
}
use trftp.Message.{
  MessageId, ntf, chk, info, rdy, cxl, data', rtx, done, fin, other, xid, message_id, same,
  TrftpHeader, TrftpMessage, trftp_magic, header_size, payload_size, u32_bytes, word_at, overlay,
  message_bytes,
}
use trftp.Crc.{calculate_crc32, calculate_file_crc32}
use trftp.Integrity.{validate_message_integrity}
use trftp.ServerTransaction.{Address, Datagram}

pub record ClientTransaction : Type 0 where
  pub has_client : Bool  -- `client_` is not null
  pub cur_file_version : ℕ
  pub inter_packet_gap : ℕ
  pub is_active : Bool
  pub status : MessageId
  pub server_address : Address
  pub thread : Bool  -- `thread_.joinable()`
  pub total_packet_number : ℕ
  pub packet_sequence_number : ℕ
  pub stream_open : Bool  -- `new_file_stream_.is_open()`
  pub new_file : Option (List ℕ)  -- the bytes of the file at `new_file_path_`
  pub new_file_version : ℕ
  pub new_file_size : ℕ
  pub new_file_crc32 : ℕ

abbrev pub no_address : Address
no_address = record { ip = 0; port = 0 }

-- The constructor, over the file that the temporary directory holds.
unfoldable pub new_transaction : Bool → ℕ → Option (List ℕ) → ClientTransaction
new_transaction client version left = record {
  has_client = client;
  cur_file_version = version;
  inter_packet_gap = 100;
  is_active = false;
  status = fin;
  server_address = no_address;
  thread = false;
  total_packet_number = 0;
  packet_sequence_number = 0;
  stream_open = false;
  new_file = left;
  new_file_version = 0;
  new_file_size = 0;
  new_file_crc32 = 0;
}

-- What comes with the call of a handler: see above, and whether it runs on `thread_` itself.
pub record Env : Type 0 where
  pub raw : TrftpMessage
  pub on_thread : Bool
  pub open_ok : Bool
  pub write_ok : Bool

pub data Effect : Type 0 where
  sends : Datagram → Effect
  joins_thread starts_thread : Effect
  terminates : Effect  -- an exception that leaves the thread's function ends the process
  file_received : ℕ → Effect

-- A handler's new state, and its effects.
abbrev pub Result : Type 0
Result = ClientTransaction × List Effect

abbrev pub blank_header : MessageId → ℕ → TrftpHeader
blank_header id payload_len = record {
  magic = trftp_magic;
  spid = 0;
  dpid = 0xFD00;
  tpn = 1;
  tpl = payload_len;
  xid = xid id;
  crc32 = 0;
  psn = 0;
  pl = payload_len;
}

-- The header, its CRC, and `udp_socket_.Send`, at the end of `SendMessage`.
unfoldable pub send_payload : MessageId → List ℕ → TrftpMessage → Address → Effect
send_payload id bytes raw addr =
    let header = blank_header id (length bytes) in
    let payload = overlay bytes raw.payload in
    let crc =
      calculate_crc32 (message_bytes (record { header = header; payload = payload }))
        (header_size + length bytes) 0 in
    sends (record {
      msg = record { header = record header { crc32 = crc }; payload = payload };
      len = header_size + length bytes;
      dest = addr;
    })

-- `SendMessage(id)`.
unfoldable pub send_message : MessageId → TrftpMessage → ClientTransaction → Result
unfolding send_payload
send_message chk raw t =
    let t' = record t { status = chk } in
    (t', send_payload chk (u32_bytes t'.cur_file_version) raw t'.server_address ∷ [])
send_message rdy raw t =
    let t' = record t { status = rdy } in
    (
      t',
      send_payload rdy
            (u32_bytes t'.new_file_version
              ++ (u32_bytes t'.new_file_size ++ u32_bytes t'.inter_packet_gap))
            raw t'.server_address
          ∷ [],
    )
send_message done raw t =
    let t' = record t { status = done } in
    (
      t',
      send_payload done
            (u32_bytes t'.new_file_version
              ++ (u32_bytes t'.new_file_size ++ u32_bytes t'.new_file_crc32))
            raw t'.server_address
          ∷ [],
    )
send_message cxl raw t =
    let t' = record t { status = cxl; is_active = false } in
    (t', send_payload cxl [] raw t'.server_address ∷ [])
send_message rtx raw t =
    (t, send_payload rtx (u32_bytes t.packet_sequence_number) raw t.server_address ∷ [])
send_message _ raw t = (t, [])

-- `if (thread_.joinable()) thread_.join();`
abbrev pub join_effects : ClientTransaction → List Effect
join_effects t = if t.thread then joins_thread ∷ [] else []

-- `Reset()`.
unfoldable pub reset : ClientTransaction → Result
reset t = (
  record t {
    server_address = no_address;
    thread = false;
    total_packet_number = 0;
    packet_sequence_number = 0;
    stream_open = false;
    new_file_version = 0;
    new_file_size = 0;
    new_file_crc32 = 0;
  },
  join_effects t,
)

-- A handler run on the state that effects have led to.
abbrev pub after : List Effect → Result → Result
after es (t, fs) = (t, es ++ fs)

-- `case MessageId::NTF`. A thread that joins itself gets an exception, which nothing catches.
unfoldable pub on_ntf : Env → List ℕ → ℕ → ClientTransaction → Result
on_ntf env p payload_len t =
    let t' = record t { status = ntf; new_file_version = word_at 0 p } in
    if not (payload_len == 4)
    then send_message cxl env.raw t
    else if env.on_thread && t.thread
    then (t', terminates ∷ [])
    else after (join_effects t ++ (starts_thread ∷ []))
        (send_message chk env.raw (record t' { thread = true }))

-- The part of `case MessageId::INFO` behind its tests.
unfoldable pub accept_info : Env → List ℕ → ClientTransaction → Result
accept_info env p t =
    let t' = record t {
      status = info;
      new_file_size = word_at 4 p;
      new_file_crc32 = word_at 8 p;
      total_packet_number = u32 ((word_at 4 p + payload_size - 1) / payload_size);
    } in
    if not env.open_ok
    then send_message cxl env.raw t'
    else send_message rdy env.raw (record t' { stream_open = true; new_file = some [] })

-- `case MessageId::INFO`.
unfoldable pub on_info : Env → List ℕ → ℕ → ClientTransaction → Result
on_info env p payload_len t =
    if not (same t.status chk)
    then send_message cxl env.raw t
    else if not (payload_len == 12)
    then send_message cxl env.raw t
    else if not (t.new_file_version == word_at 0 p)
    then send_message cxl env.raw t
    else if word_at 4 p == 0
    then send_message cxl env.raw t
    else accept_info env p t

-- The tests of `case MessageId::DATA` on the first, a middle and the last packet. `tpn - 1` is on
-- uint32_t.
abbrev pub data_expected : TrftpHeader → ℕ → ClientTransaction → Bool
data_expected h payload_len t =
    if h.psn == 0
    then same t.status rdy && payload_len == payload_size
    else if ltb h.psn (sub32 h.tpn 1)
    then same t.status data' && payload_len == payload_size
    else same t.status data' && payload_len == t.new_file_size % payload_size

abbrev pub append_file : Option (List ℕ) → List ℕ → Option (List ℕ)
append_file none bytes = some bytes
append_file (some c) bytes = some (c ++ bytes)

abbrev pub file_size : Option (List ℕ) → ℕ
file_size none = 0
file_size (some c) = length c

-- What follows the last packet.
unfoldable pub complete_file : Env → ClientTransaction → Result
complete_file env t =
    let t' = record t { stream_open = false } in
    if not (t'.new_file_size == file_size t'.new_file)
    then send_message cxl env.raw t'
    else if not (t'.new_file_crc32 == calculate_file_crc32 t'.new_file)
    then send_message cxl env.raw t'
    else send_message done env.raw t'

-- The part of `case MessageId::DATA` behind its tests: the write, and the end of the file. A write
-- to a closed stream fails.
unfoldable pub accept_data : Env → List ℕ → ℕ → ClientTransaction → Result
accept_data env p payload_len t =
    if not (t.stream_open && env.write_ok)
    then send_message cxl env.raw t
    else let t' = record t {
      new_file = append_file t.new_file (take payload_len p);
      status = data';
      packet_sequence_number = u32 (t.packet_sequence_number + 1);
    } in
      if t'.packet_sequence_number == t'.total_packet_number then complete_file env t' else (t', [])

-- `case MessageId::DATA`.
unfoldable pub on_data : Env → TrftpHeader → List ℕ → ℕ → ClientTransaction → Result
on_data env h p payload_len t =
    if not (data_expected h payload_len t)
    then send_message cxl env.raw t
    else if not (h.psn == t.packet_sequence_number)
    then send_message rtx env.raw t
    else accept_data env p payload_len t

-- `case MessageId::FIN`.
unfoldable pub on_fin : Env → ℕ → ClientTransaction → Result
on_fin env payload_len t =
    if not (same t.status done)
    then send_message cxl env.raw t
    else if not (payload_len == 0)
    then send_message cxl env.raw t
    else (
      record t { status = fin; is_active = false },
      if t.has_client then file_received t.new_file_version ∷ [] else [],
    )

-- `case MessageId::CXL`.
pub on_cxl : Env → ClientTransaction → Result
on_cxl env t = send_message cxl env.raw (
    if t.stream_open
    then record t { stream_open = false; new_file = none; status = cxl }
    else record t { status = cxl })

-- The switch of `OnReceive`.
unfoldable pub dispatch : MessageId → Env → TrftpMessage → ℕ → ClientTransaction → Result
dispatch ntf env msg payload_len t = on_ntf env msg.payload payload_len t
dispatch info env msg payload_len t = on_info env msg.payload payload_len t
dispatch data' env msg payload_len t = on_data env msg.header msg.payload payload_len t
dispatch fin env msg payload_len t = on_fin env payload_len t
dispatch cxl env msg payload_len t = on_cxl env t
dispatch _ env msg payload_len t = (t, [])

-- `OnReceive(msg, len, addr)`.
unfoldable pub on_receive : Env → TrftpMessage → ℕ → Address → ClientTransaction → Result
on_receive env msg len addr t =
    let t' = record t { server_address = addr } in
    if not (validate_message_integrity msg len)
    then (t', [])
    else dispatch (message_id msg.header.xid) env msg (len - header_size) t'

-- `Begin(msg, len, addr)`.
unfoldable pub begin : Env → TrftpMessage → ℕ → Address → ClientTransaction → Result
begin env msg len addr t =
    let active = same (message_id msg.header.xid) ntf in
    let (t', es) = reset (record t { is_active = active }) in
    let begun = after es (on_receive (record env { on_thread = false }) msg len addr t') in
    if active then begun else (record t { is_active = active }, [])

-- What `udp_socket_.Receive` gives: nothing within the time limit, or a datagram.
pub data Received : Type 0 where
  timeout : Received
  datagram : TrftpMessage → ℕ → Address → Received

abbrev pub ends_process : List Effect → Bool
ends_process [] = false
ends_process (terminates ∷ es) = true
ends_process (_ ∷ es) = ends_process es

-- One round of the loop of `HandleIncomingMessages`; the flag says that the loop goes on.
unfoldable pub worker_round : Env → Received → ClientTransaction → Result × Bool
worker_round env timeout t = (send_message cxl env.raw t, false)
worker_round env (datagram msg len addr) t =
    let (t', es) = on_receive (record env { on_thread = true }) msg len addr t in
    ((t', es), t'.is_active && not (ends_process es))

-- `HandleIncomingMessages()` over what its rounds receive, up to the end of the thread or to the
-- end of the list, where it waits on. Each round has its own `Env`.
unfoldable pub worker : List (Env × Received) → ClientTransaction → Result
unfolding worker_round
worker [] t = (t, [])
worker ((env, r) ∷ rs) t =
    let ((t', es), more) = worker_round env r t in
    let rest = after es (worker rs t') in
    if not t.is_active then (t, []) else if more then rest else (t', es)
