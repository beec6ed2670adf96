-- ===== src/UdpSocket/Sizes.antt =====
-- Every datagram that the program sends fits into the packed header and into one message.
use trftp.Base.{
  ℕ, ◌*◌, ◌≤◌, ◌<◌, arith, List, [], ◌∷◌, ◌++◌, length, drop, length-append, length-take, u32_mod,
}
use trftp.Message.{
  MessageId, ntf, chk, info, rdy, cxl, data', rtx, done, fin, other, xid, TrftpMessage,
  payload_size, u32_bytes,
}
use trftp.Message.Codec.{IsKnown}
use trftp.Crc.File.{calculate_crc32-lt}
use trftp.ServerTransaction.{
  ServerTransaction, Outcome, sent, discarded, starts_sender, complete_header, header_tpn,
  header_pl, blank_header, Address,
}
use trftp.ServerTransaction
use trftp.ServerTransaction.Sender.{data_packet}
use trftp.ServerTransaction.Sender.Run.{IsReady, chunk}
use trftp.ClientTransaction.{ClientTransaction, Effect, sends}
use trftp.ClientTransaction
use trftp.ClientTransaction.Sending.{control}
use trftp.UdpSocket.Bytes.{Fits, IsTransmittable}

xid-lt : (id : MessageId) → IsKnown id → xid id < u32_mod
xid-lt (other n) h = elim h [ ]
xid-lt _ h = omega arith

header_tpn-lt : (tpl : ℕ) → header_tpn tpl < u32_mod
header_tpn-lt tpl = ground arith

header_pl-le : (tpl psn : ℕ) → header_pl tpl psn ≤ payload_size
header_pl-le tpl psn = ground arith

complete_header-Fits :
    (t : ServerTransaction) (m : TrftpMessage) (id : MessageId) (tpl psn : ℕ)
    → IsKnown id
    → tpl < u32_mod
    → psn < u32_mod
    → Fits (complete_header t m id tpl psn).header
unfolding complete_header
complete_header-Fits t m id tpl psn k h h' = record {
  magic = omega arith;
  spid = omega arith;
  dpid = omega arith;
  tpn = header_tpn-lt tpl;
  tpl = h;
  xid = xid-lt id k;
  crc32 = calculate_crc32-lt _ _ 0;
  psn = h';
  pl = omega (arith, header_pl-le tpl psn);
}

abbrev pub Transmits : Outcome → Type 0
Transmits (sent d) = IsTransmittable d
Transmits _ = Unit {0}

abbrev pub AllTransmit : List Effect → Type 0
AllTransmit [] = Unit {0}
AllTransmit (sends d ∷ es) = IsTransmittable d × AllTransmit es
AllTransmit (_ ∷ es) = AllTransmit es

send_payload-Transmits :
    (id : MessageId) (bytes : List ℕ) (raw : TrftpMessage) (t : ServerTransaction)
    → IsKnown id
    → length bytes < payload_size
    → Transmits (ServerTransaction.send_payload id bytes raw t)
unfolding ServerTransaction.send_payload
send_payload-Transmits id bytes raw t k h = record {
  fits = complete_header-Fits t _ id (length bytes) 0 k (omega arith) (omega arith);
  has_header = omega arith;
  bounded = omega arith;
  filled =
      unfold complete_header in
      (omega (arith, length-append bytes (drop (length bytes) raw.payload)));
}

server-Transmits :
    (id : MessageId) (raw : TrftpMessage) (t : ServerTransaction)
    → Transmits (ServerTransaction.send_message id raw t).1
unfolding ServerTransaction.send_message
server-Transmits ntf raw t =
    send_payload-Transmits ntf (u32_bytes t.new_file_version) raw (record t { status = ntf }) tt
      (omega arith)
server-Transmits info raw t =
    send_payload-Transmits info
      (u32_bytes t.new_file_version ++ (u32_bytes t.new_file_size ++ u32_bytes t.new_file_crc32))
      raw (record t { status = info }) tt (omega arith)
server-Transmits fin raw t =
    send_payload-Transmits fin [] raw (record t { status = fin }) tt (omega arith)
server-Transmits cxl raw t =
    send_payload-Transmits cxl [] raw (record t { status = cxl }) tt (omega arith)
server-Transmits data' raw t = tt
server-Transmits chk raw t = tt
server-Transmits rdy raw t = tt
server-Transmits rtx raw t = tt
server-Transmits done raw t = tt
server-Transmits (other n) raw t = tt

control-IsTransmittable :
    (id : MessageId) (bytes : List ℕ) (raw : TrftpMessage) (addr : Address)
    → IsKnown id
    → length bytes < payload_size
    → IsTransmittable (control id bytes raw addr)
control-IsTransmittable id bytes raw addr k h = record {
  fits = record {
    magic = omega arith;
    spid = omega arith;
    dpid = omega arith;
    tpn = omega arith;
    tpl = omega arith;
    xid = xid-lt id k;
    crc32 = calculate_crc32-lt _ _ 0;
    psn = omega arith;
    pl = omega arith;
  };
  has_header = omega arith;
  bounded = omega arith;
  filled = omega (arith, length-append bytes (drop (length bytes) raw.payload));
}

client-AllTransmit :
    (id : MessageId) (raw : TrftpMessage) (t : ClientTransaction)
    → AllTransmit (ClientTransaction.send_message id raw t).1
unfolding ClientTransaction.send_message ClientTransaction.send_payload
client-AllTransmit chk raw t =
    (control-IsTransmittable chk (u32_bytes t.cur_file_version) raw _ tt (omega arith), tt)
client-AllTransmit rdy raw t = (
  control-IsTransmittable rdy
      (u32_bytes t.new_file_version ++ (u32_bytes t.new_file_size ++ u32_bytes t.inter_packet_gap))
      raw _ tt (omega arith),
  tt,
)
client-AllTransmit done raw t = (
  control-IsTransmittable done
      (u32_bytes t.new_file_version ++ (u32_bytes t.new_file_size ++ u32_bytes t.new_file_crc32))
      raw _ tt (omega arith),
  tt,
)
client-AllTransmit cxl raw t = (control-IsTransmittable cxl [] raw _ tt (omega arith), tt)
client-AllTransmit rtx raw t =
    (control-IsTransmittable rtx (u32_bytes t.packet_sequence_number) raw _ tt (omega arith), tt)
client-AllTransmit ntf raw t = tt
client-AllTransmit info raw t = tt
client-AllTransmit data' raw t = tt
client-AllTransmit fin raw t = tt
client-AllTransmit (other n) raw t = tt

-- Every datagram that the server's or the client's `SendMessage` sends: its header's fields fit into
-- their places, it has the header at least, it is not longer than a message, and the message holds
-- the bytes behind its header.
pub send_message-Transmits :
    (id : MessageId) (raw : TrftpMessage) (s : ServerTransaction) (t : ClientTransaction)
    → Transmits (ServerTransaction.send_message id raw s).1
      × AllTransmit (ClientTransaction.send_message id raw t).1
send_message-Transmits id raw s t = (server-Transmits id raw s, client-AllTransmit id raw t)

-- The same of every DATA packet of a file that is ready to be sent.
pub packet-IsTransmittable :
    (s : ServerTransaction) (c : List ℕ) (raw : TrftpMessage) (k : ℕ)
    → IsReady s c
    → k < s.total_packet_number
    → IsTransmittable (data_packet s raw k (chunk c k))
unfolding data_packet
packet-IsTransmittable s c raw k r h =
    let n = length-take payload_size (drop (k * payload_size) c) in
    record {
      fits =
          complete_header-Fits s _ data' s.new_file_size k tt (omega (arith, r)) (omega (arith, r));
      has_header = omega arith;
      bounded = omega (arith, n);
      filled =
          unfold complete_header in
          (omega (arith, length-append (chunk c k) (drop (length (chunk c k)) raw.payload)));
    }
