-- ===== src/Server/Missed.antt =====
-- A reply that is handled before `WaitForStatus` reads the status.
use trftp.Base.{◌≡◌, refl, arith, true, none, List, []}
use trftp.Message.{
  MessageId, ntf, chk, info, rdy, cxl, data', rtx, done, fin, other, same, TrftpMessage,
}
use trftp.ServerTransaction.{ServerTransaction, send_message}
use trftp.Server.{Event, apply_all, Window, wait_loop, wait_for_status, Course, after_ntf, drive}

same_refl : (id : MessageId) → same id id ≡ true
same_refl (other n) = ground arith
same_refl ntf = refl
same_refl chk = refl
same_refl info = refl
same_refl rdy = refl
same_refl cxl = refl
same_refl data' = refl
same_refl rtx = refl
same_refl done = refl
same_refl fin = refl

-- The window of a wait whose events all come before it reads the status.
abbrev pub early : List Event → Window
early es = record { before = es; during = [] }

early_wait :
    (es : List Event) (t : ServerTransaction)
    → wait_for_status (early es) t ≡ (none, apply_all es t)
unfolding wait_for_status wait_loop
early_wait es t = rw (same_refl (apply_all es t).status) refl

-- Whatever the client answers to NTF, and even if that moves the transaction to CHK or to CXL: if it
-- is handled between `SendMessage` and the reading of the status by `WaitForStatus`, and nothing
-- comes afterwards, `StartFileTransfer` returns NTF, as for a client that does not respond.
pub drive-early :
    (es : List Event) (informed sending : Window) (raw : TrftpMessage) (t : ServerTransaction)
    → let c : Course = record {
      notified = early es;
      informed = informed;
      sending = sending;
      raw = raw;
    } in
      ((drive c t).0 ≡ ntf) × ((drive c t).1 ≡ apply_all es (send_message ntf raw t).0)
unfolding drive after_ntf
drive-early es informed sending raw t = rw (early_wait es (send_message ntf raw t).0) (refl, refl)
