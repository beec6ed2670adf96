-- ===== src/Transfer/Receiver.antt =====
-- The client as a receiver of DATA packets in any order, with losses and repetitions: an abstract
-- receiver that holds a number of packets, and the client's handler as its refinement.
pub mod Steps
pub mod Refinement
use mathlib.Core.Path.{ap₂}
use trftp.Base.{
  ℕ, zero, suc, ◌+◌, ◌*◌, ◌-◌, ◌/◌, ◌%◌, ◌≤◌, ◌<◌, ◌≡◌, ◌≢◌, refl, sym, ap, ◌∙◌, arith, Bool, true,
  false, not, ◌&&◌, ◌||◌, Option, none, some, List, [], ◌∷◌, ◌++◌, ◌==◌, ltb, append_assoc, length,
  take, drop, u32_max, u32_mod, sub32, subst, if◌then◌else◌, eq→==, ne→==, Bool-cases, inl, inr,
  if-true, if-false,
}
use trftp.Message.{
  MessageId, rdy, cxl, data', rtx, done, same, TrftpMessage, TrftpHeader, payload_size, header_size,
  message_id, word_at, u32_bytes,
}
use trftp.Message.Codec.{word_at_first}
use trftp.Crc.{calculate_file_crc32}
use trftp.Wire.{received}
use trftp.Integrity.{validate_message_integrity}
use trftp.ServerTransaction.{Address, Datagram, ServerTransaction}
use trftp.ServerTransaction.Sender.{data_packet}
use trftp.ServerTransaction.Sender.Run.{IsReady, chunk}
use trftp.ClientTransaction.{
  ClientTransaction, Env, Effect, sends, joins_thread, starts_thread, terminates, file_received,
  Result, on_receive, on_data, data_expected, complete_file, send_message, after,
}
use trftp.Transfer.Data.{HasReceived, IsCarried, packet-arrives}
use trftp.Transfer.Packet.{
  stored_next, next-HasReceived, packet-middle, packet-last, on_receive-data, packet_xid,
  packet_psn, packet_size,
}

-- What a receiver shows to the outside, and what it answers.
pub data View : Type 0 where
  holding : ℕ → View
  complete cancelled : View

pub data Reply : Type 0 where
  requests : ℕ → Reply
  reports cancels : Reply

-- The abstract receiver of a file of n packets, at packet j: the next packet is taken, any other is
-- answered by a request for the next one, but the first packet, repeated or missing, and any packet
-- behind the end cancel the transfer.
pub take_packet : ℕ → View → ℕ → View × List Reply
take_packet n (holding k) j =
    if j == k
    then (if suc k == n then (complete, reports ∷ []) else (holding (suc k), []))
    else if j == 0 || k == 0
    then (cancelled, cancels ∷ [])
    else (holding k, requests k ∷ [])
take_packet n complete j = (cancelled, cancels ∷ [])
take_packet n cancelled j = (cancelled, cancels ∷ [])

pub take_next : (n k : ℕ) → suc k < n → take_packet n (holding k) k ≡ (holding (suc k), [])
unfolding take_packet
take_next n k h = rw (eq→== k k refl, ne→== (suc k) n (omega arith))

pub take_last : (n k : ℕ) → suc k ≡ n → take_packet n (holding k) k ≡ (complete, reports ∷ [])
unfolding take_packet
take_last n k h = rw (eq→== k k refl, eq→== (suc k) n h)

-- A receiver that has cancelled takes no more packets.
pub take_packets : ℕ → View → List ℕ → View × List Reply
unfolding take_packet
take_packets n v [] = (v, [])
take_packets n cancelled (j ∷ js) = (cancelled, [])
take_packets n v (j ∷ js) =
    let (v', rs) = take_packet n v j in let (v'', rs') = take_packets n v' js in (v'', rs ++ rs')

-- A client in one of these states, for the file c of n packets.
pub data Shows (c : List ℕ) (n : ℕ) (t : ClientTransaction) : View → Type 0 where
  has : (k : ℕ) → k < n → HasReceived c k t → Shows c n t (holding k)
  has_all : t.status ≡ done → t.new_file ≡ some c → t.stream_open ≡ false → Shows c n t complete
  gave_up : t.status ≡ cxl → t.is_active ≡ false → Shows c n t cancelled

-- The replies among a handler's effects.
abbrev pub reply_as : MessageId → List ℕ → List Reply
reply_as rtx p = requests (word_at 0 p) ∷ []
reply_as done p = reports ∷ []
reply_as cxl p = cancels ∷ []
reply_as _ p = []

abbrev pub replies : List Effect → List Reply
replies [] = []
replies (sends d ∷ es) = reply_as (message_id d.msg.header.xid) d.msg.payload ++ replies es
replies (_ ∷ es) = replies es

pub replies-append : (es fs : List Effect) → replies (es ++ fs) ≡ replies es ++ replies fs
replies-append [] fs = refl
replies-append (sends d ∷ es) fs =
    ap (λ l. reply_as (message_id d.msg.header.xid) d.msg.payload ++ l) (replies-append es fs)
    ∙ sym (
        append_assoc (reply_as (message_id d.msg.header.xid) d.msg.payload) (replies es)
          (replies fs))
replies-append (joins_thread ∷ es) fs = replies-append es fs
replies-append (starts_thread ∷ es) fs = replies-append es fs
replies-append (terminates ∷ es) fs = replies-append es fs
replies-append (file_received v ∷ es) fs = replies-append es fs

pub cancel_reply :
    (raw : TrftpMessage) (t : ClientTransaction) → replies (send_message cxl raw t).1 ≡ cancels ∷ []
unfolding send_message message_id
cancel_reply raw t = refl

pub done_reply :
    (raw : TrftpMessage) (t : ClientTransaction)
    → replies (send_message done raw t).1 ≡ reports ∷ []
unfolding send_message message_id
done_reply raw t = refl

pub request_reply :
    (raw : TrftpMessage) (t : ClientTransaction)
    → t.packet_sequence_number < u32_mod
    → replies (send_message rtx raw t).1 ≡ requests t.packet_sequence_number ∷ []
unfolding send_message message_id
request_reply raw t h =
    ap (λ k. requests k ∷ []) (word_at_first t.packet_sequence_number (drop 4 raw.payload) h)

-- The result of a handler, against the abstract receiver's.
abbrev pub Refines : List ℕ → ℕ → Result → View × List Reply → Type 0
Refines c n u w = Shows c n u.0 w.0 × (replies u.1 ≡ w.1)

pub cancel-Refines :
    (c : List ℕ) (n : ℕ) (raw : TrftpMessage) (t : ClientTransaction)
    → Refines c n (send_message cxl raw t) (cancelled, cancels ∷ [])
unfolding send_message
cancel-Refines c n raw t = (gave_up refl refl, cancel_reply raw t)

-- The tests on an unwanted packet: the first one, or one for a client with nothing, or with all.
pub unexpected :
    (h : TrftpHeader) (n : ℕ) (t : ClientTransaction)
    → (if h.psn == 0 then same t.status rdy else same t.status data') ≡ false
    → data_expected h n t ≡ false
unexpected h n t e = ground arith

pub on_data-refused :
    (env : Env) (h : TrftpHeader) (p : List ℕ) (n : ℕ) (t : ClientTransaction)
    → data_expected h n t ≡ false
    → on_data env h p n t ≡ send_message cxl env.raw t
unfolding on_data
on_data-refused env h p n t e = rw (e, on_data) refl

pub on_data-gap :
    (env : Env) (h : TrftpHeader) (p : List ℕ) (n : ℕ) (t : ClientTransaction)
    → data_expected h n t ≡ true
    → h.psn ≢ t.packet_sequence_number
    → on_data env h p n t ≡ send_message rtx env.raw t
unfolding on_data
on_data-gap env h p n t ok e = rw (ok, on_data, ne→== h.psn t.packet_sequence_number e) refl

-- One datagram as it arrives: the packet's number, and what is uncertain in the call.
pub record Arrival : Type 0 where
  pub psn : ℕ
  pub env : Env
  pub stale : TrftpMessage
  pub raw : TrftpMessage
  pub addr : Address

-- The client's handler at a packet of the file c.
abbrev pub receive_one : ServerTransaction → List ℕ → Arrival → ClientTransaction → Result
receive_one s c a t =
    let d = data_packet s a.raw a.psn (chunk c a.psn) in
    on_receive a.env (received a.stale d) d.len a.addr t
