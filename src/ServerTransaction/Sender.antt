-- ===== src/ServerTransaction/Sender.antt =====
-- The thread of `ServerTransaction::SendFileAsync`, cut at the points between which the receiving
-- thread and the caller's thread may change the transaction's atomics.
mod Steps
pub mod Run
pub mod Tail
pub mod Stop
use trftp.Base.{
  ℕ, zero, suc, ◌+◌, ◌*◌, Option, none, some, List, ◌∷◌, ◌==◌, ltb, not, if◌then◌else◌, length,
  take, drop, u32, u32_max, sub32,
}
use trftp.Message.{cxl, data', same, TrftpMessage, header_size, payload_size, overlay}
use trftp.ServerTransaction.{
  Disk, Datagram, ServerTransaction, Outcome, sent, complete_header, send_message,
}

-- Where the thread stands: before it opens the file, at the loop's test, behind the test, before
-- the message is prepared, behind the transmission, behind the wait of one second, before the
-- increment, and at its end.
pub data Pc : Type 0 where
  open_file test check prepare tail waited increment exited : Pc

-- `ifs` holds the bytes of the file as it was opened.
pub record Sender : Type 0 where
  pub tran : ServerTransaction
  pub ifs : List ℕ
  pub pc : Pc
  pub sends : List Datagram  -- newest first

abbrev pub emit : Outcome → List Datagram → List Datagram
emit (sent d) ds = d ∷ ds
emit _ ds = ds

-- `SendMessage(MessageId::CXL, udp_socket); return;`
unfoldable pub cancel : TrftpMessage → Sender → Sender
cancel raw s =
    let (t, o) = send_message cxl raw s.tran in
    record s { tran = t; pc = exited; sends = emit o s.sends }

-- `file_offset` and `payload_len` of a packet.
abbrev pub packet_offset : ℕ → ℕ
packet_offset psn = u32 (psn * payload_size)

abbrev pub packet_len : ServerTransaction → ℕ → ℕ
packet_len t psn =
    if psn == sub32 t.total_packet_number 1
    then sub32 t.new_file_size (packet_offset psn)
    else payload_size

-- The bytes that `seekg(offset).read(buf, n)` stores.
abbrev pub read_at : List ℕ → ℕ → ℕ → List ℕ
read_at c offset n = take n (drop offset c)

-- The DATA message of a packet.
unfoldable pub data_packet : ServerTransaction → TrftpMessage → ℕ → List ℕ → Datagram
data_packet t raw psn bytes = record {
  msg =
      complete_header t (record raw { payload = overlay bytes raw.payload }) data' t.new_file_size
        psn;
  len = header_size + length bytes;
  dest = t.client_address;
}

-- Read and transmit the packet `packet_sequence_number_`; a short read cancels.
unfoldable pub transmit : TrftpMessage → Sender → Sender
unfolding cancel
transmit raw s =
    let psn = s.tran.packet_sequence_number in
    let n = packet_len s.tran psn in
    let bytes = read_at s.ifs (packet_offset psn) n in
    if not (length bytes == n)
    then cancel raw s
    else record s { pc = tail; sends = data_packet s.tran raw psn bytes ∷ s.sends }

-- `if (retransmit_psn_ != -1U) packet_sequence_number_.store(retransmit_psn_.exchange(-1));`
pub take_rtx : ServerTransaction → ServerTransaction
take_rtx t =
    if not (t.retransmit_psn == u32_max)
    then record t { packet_sequence_number = t.retransmit_psn; retransmit_psn = u32_max }
    else t

unfoldable pub open_step : TrftpMessage → Option (List ℕ) → Sender → Sender
unfolding cancel
open_step raw none s = cancel raw s
open_step raw (some c) s = record s {
  tran = record (s.tran) { packet_sequence_number = 0 };
  ifs = c;
  pc = test;
}

unfoldable pub step_at : Pc → Disk → TrftpMessage → Sender → Sender
unfolding open_step transmit take_rtx
step_at open_file disk raw s = open_step raw (disk s.tran.file_path) s
step_at test disk raw s =
    if ltb s.tran.packet_sequence_number s.tran.total_packet_number
    then record s { pc = check }
    else record s { pc = exited }
step_at check disk raw s =
    if same s.tran.status cxl
    then record s { pc = exited }
    else record s { tran = take_rtx s.tran; pc = prepare }
step_at prepare disk raw s = transmit raw s
step_at tail disk raw s =
    if s.tran.packet_sequence_number == sub32 s.tran.total_packet_number 1
    then record s { pc = waited }
    else record s { pc = increment }
step_at waited disk raw s = record s { tran = take_rtx s.tran; pc = increment }
step_at increment disk raw s = record s {
  tran = record (s.tran) { packet_sequence_number = u32 (s.tran.packet_sequence_number + 1) };
  pc = test;
}
step_at exited disk raw s = s

-- One step of the thread.
unfoldable pub sender_step : Disk → TrftpMessage → Sender → Sender
unfolding step_at
sender_step disk raw s = step_at s.pc disk raw s

-- The thread alone, for a number of steps. The uninitialised message of a step may depend on the
-- packet.
pub run : ℕ → Disk → (ℕ → TrftpMessage) → Sender → Sender
run zero disk raws s = s
run (suc n) disk raws s = run n disk raws (sender_step disk (raws s.tran.packet_sequence_number) s)
