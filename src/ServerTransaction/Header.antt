-- ===== src/ServerTransaction/Header.antt =====
-- What the server sends passes the check that the client makes, and where it does not.
use trftp.Base.{
  ℕ, ◌+◌, ◌%◌, ◌≤◌, ◌<◌, ◌≡◌, refl, ap, ◌∙◌, arith, Bool, true, false, not, ◌&&◌, List, [], ◌++◌,
  ◌==◌, leb, if◌then◌else◌, length, drop, length-append, sub32, u32_mod, eq→==, ==_iff,
}
use trftp.Message.{
  MessageId, ntf, chk, info, rdy, cxl, data', rtx, done, fin, other, xid, TrftpMessage, header_size,
  payload_size, overlay, message_bytes, u32_bytes,
}
use trftp.Crc.{calculate_crc32}
use trftp.Integrity.{validate_message_integrity}
use trftp.Wire.{received, validate-received}
use trftp.ServerTransaction.{
  ServerTransaction, Outcome, sent, complete_header, header_tpn, header_pl, send_message,
  send_payload, blank_header,
}
use trftp.ServerTransaction.Sender.{packet_len, packet_offset, data_packet}

and_implied : (c l p : Bool) → (l ≡ true → c ≡ true) → (c && (l && p)) ≡ (l && p)
and_implied c true p h = rw (h refl)
and_implied true false p h = refl
and_implied false false p h = refl

-- A completed header passes the check exactly when the datagram has the length that it announces
-- and the packet's number lies below the count.
pub complete_header-validate :
    (t : ServerTransaction) (m : TrftpMessage) (id : MessageId) (tpl psn len : ℕ)
    → validate_message_integrity (complete_header t m id tpl psn) len
      ≡ (len == header_size + header_pl tpl psn && not (leb (header_tpn tpl) psn))
unfolding validate_message_integrity complete_header
complete_header-validate t m id tpl psn len =
    and_implied _ (len == header_size + header_pl tpl psn) (not (leb (header_tpn tpl) psn)) λ e.
      eq→== _ _ (
        ap
          (λ l.
            calculate_crc32 (message_bytes (record m { header = blank_header t id tpl psn })) l 0)
          ((==_iff len _).0 e))

-- The control messages, whose payload is shorter than the union.
control_header :
    (n : ℕ)
    → n < payload_size
    → (header_size + n == header_size + header_pl n 0 && not (leb (header_tpn n) 0)) ≡ true
control_header n h = ground arith

-- What a client that receives the datagram is given: a message that passes its check, with the
-- identifier that was to be sent.
abbrev pub Arrives : TrftpMessage → MessageId → ServerTransaction → Outcome → Type 0
Arrives stale id t (sent d) =
    (validate_message_integrity (received stale d) d.len ≡ true)
    × (d.msg.header.xid ≡ xid id)
    × (d.dest ≡ t.client_address)
Arrives stale id t _ = Unit {0}

abbrev filled : TrftpMessage → List ℕ → TrftpMessage
filled raw bytes = record raw { payload = overlay bytes raw.payload }

filled_room :
    (t : ServerTransaction) (raw : TrftpMessage) (bytes : List ℕ) (id : MessageId) (tpl psn : ℕ)
    → length bytes ≤ length (complete_header t (filled raw bytes) id tpl psn).payload
unfolding complete_header
filled_room t raw bytes id tpl psn =
    omega (arith, length-append bytes (drop (length bytes) raw.payload))

pub send_payload-Arrives :
    (stale : TrftpMessage) (id : MessageId) (bytes : List ℕ) (raw : TrftpMessage)
    (t : ServerTransaction)
    → length bytes < payload_size
    → Arrives stale id t (send_payload id bytes raw t)
unfolding send_payload
send_payload-Arrives stale id bytes raw t h = (
  validate-received stale
        (record {
          msg = complete_header t (filled raw bytes) id (length bytes) 0;
          len = header_size + length bytes;
          dest = t.client_address;
        })
        (length bytes) refl (filled_room t raw bytes id (length bytes) 0)
      ∙ complete_header-validate t (filled raw bytes) id (length bytes) 0
          (header_size + length bytes)
      ∙ control_header (length bytes) h,
  unfold complete_header in refl,
  refl,
)

-- Every control message that `SendMessage` transmits arrives.
pub send_message-Arrives :
    (stale : TrftpMessage) (id : MessageId) (raw : TrftpMessage) (t : ServerTransaction)
    → Arrives stale id t (send_message id raw t).1
unfolding send_message
send_message-Arrives stale ntf raw t =
    send_payload-Arrives stale ntf (u32_bytes t.new_file_version) raw _ (omega arith)
send_message-Arrives stale chk raw t = tt
send_message-Arrives stale info raw t =
    send_payload-Arrives stale info
      (u32_bytes t.new_file_version ++ (u32_bytes t.new_file_size ++ u32_bytes t.new_file_crc32))
      raw _ (omega arith)
send_message-Arrives stale rdy raw t = tt
send_message-Arrives stale cxl raw t = send_payload-Arrives stale cxl [] raw _ (omega arith)
send_message-Arrives stale data' raw t = tt
send_message-Arrives stale rtx raw t = tt
send_message-Arrives stale done raw t = tt
send_message-Arrives stale fin raw t = send_payload-Arrives stale fin [] raw _ (omega arith)
send_message-Arrives stale (other n) raw t = tt

packet_header :
    (size tpn psn n : ℕ)
    → 0 < size
    → size < u32_mod
    → tpn ≡ header_tpn size
    → psn < tpn
    → n ≡ (if psn == sub32 tpn 1 then sub32 size (packet_offset psn) else payload_size)
    → (header_size + n == header_size + header_pl size psn && not (leb (header_tpn size) psn))
      ≡ not (psn + 1 == tpn && size % payload_size == 0)
packet_header size tpn psn n p h e l q = ground arith

-- A DATA packet arrives, but for the last one of a file whose length is a multiple of 1408: its
-- header announces a payload of 0 bytes, so the client refuses it.
pub data_packet-validate :
    (stale raw : TrftpMessage) (t : ServerTransaction) (psn : ℕ) (bytes : List ℕ)
    → 0 < t.new_file_size
    → t.new_file_size < u32_mod
    → t.total_packet_number ≡ header_tpn t.new_file_size
    → psn < t.total_packet_number
    → length bytes ≡ packet_len t psn
    → let d = data_packet t raw psn bytes in
      validate_message_integrity (received stale d) d.len
      ≡ not (psn + 1 == t.total_packet_number && t.new_file_size % payload_size == 0)
unfolding data_packet
data_packet-validate stale raw t psn bytes p h e l q =
    validate-received stale (data_packet t raw psn bytes) (length bytes) refl
      (filled_room t raw bytes data' t.new_file_size psn)
    ∙ complete_header-validate t (filled raw bytes) data' t.new_file_size psn
        (header_size + length bytes)
    ∙ packet_header t.new_file_size t.total_packet_number psn (length bytes) p h e l q
