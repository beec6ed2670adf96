-- ===== src/ServerTransaction/Receive.antt =====
-- What `ServerTransaction::OnReceive` does to the state of a transfer.
use trftp.Base.{ℕ, ◌-◌, ◌≤◌, ◌≡◌, ◌↔◌, refl, arith, ◌⊎◌, true, Bool-cases, inl, inr}
use trftp.Message.{
  MessageId, ntf, chk, info, rdy, cxl, data', rtx, done, TrftpMessage, header_size, message_id,
  word_at,
}
use trftp.Integrity.{validate_message_integrity}
use trftp.ServerTransaction.{Address, ServerTransaction, on_receive, dispatch}

-- The edges along which a received message moves the status.
pub data Move (m : TrftpMessage) (t u : ServerTransaction) : Type 0 where
  keep : u.status ≡ t.status → Move m t u
  checked : t.status ≡ ntf → u.status ≡ chk → u.cur_file_version ≡ word_at 0 m.payload → Move m t u
  ready :
      t.status ≡ info
      → u.status ≡ rdy
      → (100 ≤ u.inter_packet_gap) × (u.inter_packet_gap ≤ 300)
      → Move m t u
  finished :
      t.status ≡ data'
      → u.status ≡ done
      → t.packet_sequence_number ≡ t.total_packet_number
      → (word_at 0 m.payload ≡ t.new_file_version)
        × (word_at 4 m.payload ≡ t.new_file_size)
        × (word_at 8 m.payload ≡ t.new_file_crc32)
      → Move m t u
  cancelled : u.status ≡ cxl → Move m t u

dispatch-Move :
    (id : MessageId) (m : TrftpMessage) (n : ℕ) (t : ServerTransaction)
    → Move m t (dispatch id m.payload n t)
unfolding dispatch
dispatch-Move chk m n t = grind (arith, keep, checked)
dispatch-Move rdy m n t = grind (arith, keep, ready)
dispatch-Move done m n t = grind (arith, keep, finished)
dispatch-Move cxl m n t = grind (arith, keep, cancelled)
dispatch-Move rtx m n t = grind (arith, keep)
dispatch-Move _ m n t = keep refl

-- The address that `OnReceive` stores first plays no part in a move.
move_from :
    (m : TrftpMessage) (addr : Address) (t u : ServerTransaction)
    → Move m (record t { client_address = addr }) u
    → Move m t u
move_from m addr t u (keep e) = keep e
move_from m addr t u (checked s e v) = checked s e v
move_from m addr t u (ready s e g) = ready s e g
move_from m addr t u (finished s e n v) = finished s e n v
move_from m addr t u (cancelled e) = cancelled e

-- Every received message leaves the status alone or moves it along one of these edges.
pub on_receive-Move :
    (m : TrftpMessage) (len : ℕ) (addr : Address) (t : ServerTransaction)
    → Move m t (on_receive m len addr t)
unfolding on_receive
on_receive-Move m len addr t = elim (Bool-cases (validate_message_integrity m len)) [
  | inl ok ↦
      rw (ok, on_receive)
        (move_from m addr t _ (
          dispatch-Move (message_id m.header.xid) m (len - header_size)
            (record t { client_address = addr })))
  | inr bad ↦ rw (bad, on_receive) (keep refl)
]

-- What the check of a DONE message demands.
pub record Finishes (m : TrftpMessage) (len : ℕ) (t : ServerTransaction) : Type 0 where
  pub valid : validate_message_integrity m len ≡ true
  pub is_done : message_id m.header.xid ≡ done
  pub size : len - header_size ≡ 12
  pub all_sent : t.packet_sequence_number ≡ t.total_packet_number
  pub version_matches : word_at 0 m.payload ≡ t.new_file_version
  pub length_matches : word_at 4 m.payload ≡ t.new_file_size
  pub crc_matches : word_at 8 m.payload ≡ t.new_file_crc32

dispatch-eq-done :
    (id : MessageId) (m : TrftpMessage) (n : ℕ) (t : ServerTransaction)
    → t.status ≡ data'
    → (dispatch id m.payload n t).status ≡ done
    → (id ≡ done)
      × (n ≡ 12)
      × (t.packet_sequence_number ≡ t.total_packet_number)
      × (word_at 0 m.payload ≡ t.new_file_version)
      × (word_at 4 m.payload ≡ t.new_file_size)
      × (word_at 8 m.payload ≡ t.new_file_crc32)
unfolding dispatch
dispatch-eq-done chk m n t s h = ground arith
dispatch-eq-done _ m n t s h = ground arith

-- While DATA is under way a message ends the transfer exactly if it is a sound DONE for this
-- file and the sender has counted past its last packet.
pub on_receive-done_iff :
    (m : TrftpMessage) (len : ℕ) (addr : Address) (t : ServerTransaction)
    → t.status ≡ data'
    → ((on_receive m len addr t).status ≡ done) ↔ Finishes m len t
unfolding on_receive
on_receive-done_iff m len addr t s = (
  λ h. ground (
    arith,
    dispatch-eq-done (message_id m.header.xid) m (len - header_size)
        (record t { client_address = addr }),
  ),
  λ f. rw (f.valid, f.is_done, on_receive) (unfold dispatch in (ground arith)),
)

-- What no received message touches, and what a retransmission request may ask for.
pub record Untouched (m : TrftpMessage) (t u : ServerTransaction) : Type 0 where
  pub psn : u.packet_sequence_number ≡ t.packet_sequence_number
  pub tpn : u.total_packet_number ≡ t.total_packet_number
  pub version : u.new_file_version ≡ t.new_file_version
  pub size : u.new_file_size ≡ t.new_file_size
  pub crc : u.new_file_crc32 ≡ t.new_file_crc32
  pub request :
      (u.retransmit_psn ≡ t.retransmit_psn)
      ⊎ ((t.status ≡ data')
          × (u.retransmit_psn ≡ word_at 0 m.payload)
          × (word_at 0 m.payload ≤ t.packet_sequence_number))

dispatch-Untouched :
    (id : MessageId) (m : TrftpMessage) (n : ℕ) (t : ServerTransaction)
    → Untouched m t (dispatch id m.payload n t)
unfolding dispatch
dispatch-Untouched chk m n t = ground arith
dispatch-Untouched rdy m n t = ground arith
dispatch-Untouched done m n t = ground arith
dispatch-Untouched cxl m n t = ground arith
dispatch-Untouched rtx m n t = ground arith
dispatch-Untouched _ m n t = ground arith

-- No message changes the packet number, the count or the file's data; a retransmission request is
-- taken while DATA is under way only, and for a packet up to the current one.
pub on_receive-Untouched :
    (m : TrftpMessage) (len : ℕ) (addr : Address) (t : ServerTransaction)
    → Untouched m t (on_receive m len addr t)
unfolding on_receive
on_receive-Untouched m len addr t = ground (
  arith,
  dispatch-Untouched (message_id m.header.xid) m (len - header_size)
      (record t { client_address = addr }),
)
