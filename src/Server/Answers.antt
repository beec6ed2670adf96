-- ===== src/Server/Answers.antt =====
-- The course of `StartFileTransfer` with a client that answers.
use trftp.Base.{
  ℕ, ◌≡◌, ◌<◌, refl, sym, ap, ◌∙◌, arith, true, false, some, List, [], ◌∷◌, length, u32_max,
  u32_mod, ◌⊎◌, inl, inr,
}
use trftp.Message.{MessageId, ntf, chk, info, rdy, data', done, fin, same, TrftpMessage}
use trftp.Message.Codec.{message_id-xid}
use trftp.Wire.{received}
use trftp.ServerTransaction.{
  Address, ServerTransaction, Outcome, send_message, on_receive, dispatch,
}
use trftp.ServerTransaction.Receive.{on_receive-done_iff}
use trftp.ClientTransaction.{ClientTransaction}
use trftp.ClientTransaction.Sending.{control, control-validate}
use trftp.Transfer.Done.{done_bytes, done-Finishes}
use trftp.Server.{
  Event, receives, counts, apply, Window, wait_loop, wait_for_status, apply_all, Course, after_ntf,
  after_info, after_data, drive,
}
use trftp.Server.Waits.{SameFile, apply-SameFile}
use trftp.Server.Drive.{sent-SameFile}

-- The receipt of a control message of the client.
abbrev pub arrival : TrftpMessage → MessageId → List ℕ → TrftpMessage → Address → Event
arrival stale id bytes raw addr =
    let d = control id bytes raw addr in receives (received stale d) d.len addr

-- A wait in which one event comes and wakes the waiting thread.
abbrev pub answered : Event → Window
answered e = record { before = []; during = (e, true) ∷ [] }

wait_answered :
    (e : Event) (t : ServerTransaction)
    → same (apply e t).status t.status ≡ false
    → wait_for_status (answered e) t ≡ (some (apply e t).status, apply e t)
unfolding wait_for_status wait_loop apply_all
wait_answered e t h = rw h refl

chk-accepted :
    (stale raw : TrftpMessage) (bytes : List ℕ) (addr : Address) (t : ServerTransaction)
    → t.status ≡ ntf
    → length bytes ≡ 4
    → (apply (arrival stale chk bytes raw addr) t).status ≡ chk
unfolding apply on_receive
chk-accepted stale raw bytes addr t s n =
    rw (control-validate stale chk bytes raw addr, message_id-xid chk tt, on_receive)
      (unfold dispatch in (ground arith))

rdy-accepted :
    (stale raw : TrftpMessage) (bytes : List ℕ) (addr : Address) (t : ServerTransaction)
    → t.status ≡ info
    → length bytes ≡ 12
    → (apply (arrival stale rdy bytes raw addr) t).status ≡ rdy
unfolding apply on_receive
rdy-accepted stale raw bytes addr t s n =
    rw (control-validate stale rdy bytes raw addr, message_id-xid rdy tt, on_receive)
      (unfold dispatch in (ground arith))

-- The wait behind DATA: the sending thread moves its counters, and the report comes.
abbrev pub counted_wait : ℕ → ℕ → Event → Window
counted_wait psn request e = record {
  before = [];
  during = (counts psn request, false) ∷ (e, true) ∷ [];
}

-- It counts past the last packet.
abbrev pub report_wait : ℕ → Event → Window
report_wait tpn e = counted_wait tpn u32_max e

done-accepted :
    (stale raw : TrftpMessage) (tpn : ℕ) (t : ServerTransaction) (u : ClientTransaction)
    → t.status ≡ data'
    → t.total_packet_number ≡ tpn
    → (u.new_file_version ≡ t.new_file_version) × (t.new_file_version < u32_mod)
    → (u.new_file_size ≡ t.new_file_size) × (t.new_file_size < u32_mod)
    → (u.new_file_crc32 ≡ t.new_file_crc32) × (t.new_file_crc32 < u32_mod)
    → (apply
        (arrival stale done (done_bytes u) raw u.server_address)
        (apply (counts tpn u32_max) t)).status
      ≡ done
unfolding apply
done-accepted stale raw tpn t u s n ver size crc =
    let t' = record t { packet_sequence_number = tpn; retransmit_psn = u32_max } in
    let d = control done (done_bytes u) raw u.server_address in
    (on_receive-done_iff (received stale d) d.len u.server_address t' s).1
      (done-Finishes stale raw t' u (sym n) ver size crc)

pub wait_reported :
    (psn request : ℕ) (e : Event) (t : ServerTransaction)
    → t.status ≡ data'
    → (apply e (apply (counts psn request) t)).status ≡ done
    → (wait_for_status (counted_wait psn request e) t).0 ≡ some done
unfolding wait_for_status wait_loop apply_all
wait_reported psn request e t s h = rw (h, s) refl

after_info-rdy :
    (c : Course) (t : ServerTransaction) (os : List Outcome)
    → (wait_for_status c.sending (send_message data' c.raw t).0).0 ≡ some done
    → (after_info c (some rdy) t os).0 ≡ fin
unfolding after_info after_data
after_info-rdy c t os h = rw (h, after_data) refl

after_ntf-chk :
    (c : Course) (t u : ServerTransaction) (os : List Outcome)
    → wait_for_status c.informed (send_message info c.raw t).0 ≡ (some rdy, u)
    → (wait_for_status c.sending (send_message data' c.raw u).0).0 ≡ some done
    → (after_ntf c (some chk) t os).0 ≡ fin
unfolding after_ntf
after_ntf-chk c t u os e h = rw e (after_info-rdy c u _ h)

pub drive-stages :
    (c : Course) (t t1 t2 : ServerTransaction)
    → wait_for_status c.notified (send_message ntf c.raw t).0 ≡ (some chk, t1)
    → wait_for_status c.informed (send_message info c.raw t1).0 ≡ (some rdy, t2)
    → (wait_for_status c.sending (send_message data' c.raw t2).0).0 ≡ some done
    → (drive c t).0 ≡ fin
unfolding drive
drive-stages c t t1 t2 e1 e2 e3 =
    rw e1 (after_ntf-chk c t1 t2 ((send_message ntf c.raw t).1 ∷ []) e2 e3)

sent-status :
    (id : MessageId) (raw : TrftpMessage) (t : ServerTransaction)
    → (id ≡ ntf) ⊎ (id ≡ info) ⊎ (id ≡ data')
    → (send_message id raw t).0.status ≡ id
unfolding send_message
sent-status ntf raw t h = refl
sent-status info raw t h = refl
sent-status data' raw t h = refl
sent-status _ raw t h = absurd (ground arith)

-- An answer that moves the status is what the wait returns.
pub wait_moved :
    (e : Event) (t : ServerTransaction) (old new : MessageId)
    → t.status ≡ old
    → (apply e t).status ≡ new
    → same new old ≡ false
    → wait_for_status (answered e) t ≡ (some new, apply e t)
wait_moved e t old new s h d = wait_answered e t (rw (h, s) d) ∙ ap (λ id. (some id, apply e t)) h

-- The course of a call in which the client answers each time. Each answer is read into a buffer
-- with any old contents.
abbrev pub answering :
    ServerTransaction
    → ClientTransaction
    → TrftpMessage
    → (ℕ → TrftpMessage)
    → (ℕ → TrftpMessage)
    → List ℕ
    → List ℕ
    → Address
    → Course
answering t u raw stales raws checks gaps addr = record {
  notified = answered (arrival (stales 0) chk checks (raws 0) addr);
  informed = answered (arrival (stales 1) rdy gaps (raws 1) addr);
  sending =
      report_wait t.total_packet_number
        (arrival (stales 2) done (done_bytes u) (raws 2) u.server_address);
  raw = raw;
}

-- A client that answers NTF, INFO and DATA, each within its wait, gets FIN, whatever its version is
-- and whatever gap it asks for: its CHK has 4 bytes, its RDY 12, and its DONE the version, length
-- and CRC of the file, the sending thread having counted past the last packet.
pub drive-answered :
    (t : ServerTransaction) (u : ClientTransaction) (raw : TrftpMessage)
    (stales raws : ℕ → TrftpMessage) (checks gaps : List ℕ) (addr : Address)
    → length checks ≡ 4
    → length gaps ≡ 12
    → (u.new_file_version ≡ t.new_file_version) × (t.new_file_version < u32_mod)
    → (u.new_file_size ≡ t.new_file_size) × (t.new_file_size < u32_mod)
    → (u.new_file_crc32 ≡ t.new_file_crc32) × (t.new_file_crc32 < u32_mod)
    → (drive (answering t u raw stales raws checks gaps addr) t).0 ≡ fin
drive-answered t u raw stales raws checks gaps addr n1 n2 ver size crc =
    let e1 = arrival (stales 0) chk checks (raws 0) addr in
    let e2 = arrival (stales 1) rdy gaps (raws 1) addr in
    let e3 = arrival (stales 2) done (done_bytes u) (raws 2) u.server_address in
    let s1 = (send_message ntf raw t).0 in
    let t1 = apply e1 s1 in
    let s2 = (send_message info raw t1).0 in
    let t2 = apply e2 s2 in
    let s3 = (send_message data' raw t2).0 in
    let b1 : s1.status ≡ ntf = sent-status ntf raw t (inl refl) in
    let b2 : s2.status ≡ info = sent-status info raw t1 (inr (inl refl)) in
    let b3 : s3.status ≡ data' = sent-status data' raw t2 (inr (inr refl)) in
    let v : SameFile t s3 = sent-SameFile data' raw t t2 (
      apply-SameFile e2 t s2 (
        sent-SameFile info raw t t1 (
          apply-SameFile e1 t s1 (
            sent-SameFile ntf raw t t
              (record { version = refl; size = refl; crc = refl; count = refl }))))) in
    drive-stages (answering t u raw stales raws checks gaps addr) t t1 t2
      (wait_moved e1 s1 ntf chk b1 (chk-accepted (stales 0) (raws 0) checks addr s1 b1 n1) refl)
      (wait_moved e2 s2 info rdy b2 (rdy-accepted (stales 1) (raws 1) gaps addr s2 b2 n2) refl)
      (wait_reported t.total_packet_number u32_max e3 s3 b3 (
        done-accepted (stales 2) (raws 2) t.total_packet_number s3 u b3 v.count
          (omega (arith, v, ver)) (omega (arith, v, size)) (omega (arith, v, crc))))
