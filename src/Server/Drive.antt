-- ===== src/Server/Drive.antt =====
-- The end of `StartFileTransfer`: what a returned FIN means.
use trftp.Base.{ℕ, ◌≡◌, refl, sym, ap, ◌∙◌, arith, Option, none, some, List, ◌∷◌, ◌++◌}
use trftp.Message.{MessageId, ntf, chk, info, rdy, cxl, data', done, fin, TrftpMessage}
use trftp.ServerTransaction.{Address, ServerTransaction, Outcome, send_message}
use trftp.ServerTransaction.Receive.{Finishes}
use trftp.Server.{
  Event, receives, apply_all, Window, wait_for_status, Course, give_up, after_data, after_info,
  after_ntf, drive,
}
use trftp.Server.Waits.{
  SameFile, course_of, first_done, apply_all-SameFile, wait-state, wait-SameFile, wait_status,
}

-- In the wait w that follows the DATA command for the file of t, a message was received that the
-- server, in the state that the events before it had led to, could only take as the file's DONE.
pub record Reported (t : ServerTransaction) (w : Window) : Type 0 where
  pub start : ServerTransaction
  pub begun : start.status ≡ data'
  pub earlier : List Event
  pub later : List Event
  pub msg : TrftpMessage
  pub len : ℕ
  pub addr : Address
  pub in_course : course_of w ≡ earlier ++ (receives msg len addr ∷ later)
  pub same_file : SameFile t (apply_all earlier start)
  pub accepted : Finishes msg len (apply_all earlier start)

after_data-fin :
    (raw : TrftpMessage) (st : Option MessageId) (t : ServerTransaction) (os : List Outcome)
    → (after_data raw st t os).0 ≡ fin
    → st ≡ some done
unfolding after_data give_up
after_data-fin raw none t os h = cc
after_data-fin raw (some done) t os h = refl
after_data-fin raw (some cxl) t os h = cc
after_data-fin raw (some _) t os h = cc

pub sent-SameFile :
    (id : MessageId) (raw : TrftpMessage) (t u : ServerTransaction)
    → SameFile t u
    → SameFile t (send_message id raw u).0
unfolding send_message
sent-SameFile ntf raw t u v = ground arith
sent-SameFile _ raw t u v = ground arith

data_sent :
    (raw : TrftpMessage) (t : ServerTransaction) → (send_message data' raw t).0.status ≡ data'
unfolding send_message
data_sent raw t = refl

-- The wait behind DATA returned DONE.
report_of :
    (w : Window) (t s : ServerTransaction)
    → SameFile t s
    → s.status ≡ data'
    → (wait_for_status w s).0 ≡ some done
    → Reported t w
report_of w t s v begun h =
    let f =
      first_done (course_of w) s (λ e. cc)
        (ap (λ u. u.status) (sym (wait-state w s)) ∙ wait_status w s done h) in
    record {
      start = s;
      begun = begun;
      earlier = f.earlier;
      later = f.later;
      msg = f.msg;
      len = f.len;
      addr = f.addr;
      in_course = f.split;
      same_file = apply_all-SameFile f.earlier t s v;
      accepted = f.accepted;
    }

after_info-fin :
    (c : Course) (st : Option MessageId) (t u : ServerTransaction) (os : List Outcome)
    → SameFile t u
    → (after_info c st u os).0 ≡ fin
    → Reported t c.sending
unfolding after_info give_up
after_info-fin c (some rdy) t u os v h =
    let s = (send_message data' c.raw u).0 in
    report_of c.sending t s (sent-SameFile data' c.raw t u v) (data_sent c.raw u)
      (after_data-fin c.raw _ _ _ h)
after_info-fin c none t u os v h = absurd cc
after_info-fin c (some cxl) t u os v h = absurd cc
after_info-fin c (some _) t u os v h = absurd cc

after_ntf-fin :
    (c : Course) (st : Option MessageId) (t u : ServerTransaction) (os : List Outcome)
    → SameFile t u
    → (after_ntf c st u os).0 ≡ fin
    → Reported t c.sending
unfolding after_ntf give_up
after_ntf-fin c (some chk) t u os v h =
    let s = (send_message info c.raw u).0 in
    after_info-fin c _ t (wait_for_status c.informed s).1 _
      (wait-SameFile c.informed t s (sent-SameFile info c.raw t u v)) h
after_ntf-fin c none t u os v h = absurd cc
after_ntf-fin c (some cxl) t u os v h = absurd cc
after_ntf-fin c (some _) t u os v h = absurd cc

-- `StartFileTransfer` returns FIN only if the events of its last wait, behind the DATA command,
-- include the receipt of a message that passes the integrity check and is a DONE with the version,
-- length and CRC of the file it was started for, at a moment when the sending thread had counted
-- past the last packet.
pub drive-fin : (c : Course) (t : ServerTransaction) → (drive c t).0 ≡ fin → Reported t c.sending
unfolding drive
drive-fin c t h =
    let s = (send_message ntf c.raw t).0 in
    let v : SameFile t t = record { version = refl; size = refl; crc = refl; count = refl } in
    after_ntf-fin c _ t (wait_for_status c.notified s).1 _
      (wait-SameFile c.notified t s (sent-SameFile ntf c.raw t t v)) h
