-- ===== src/Server/Results.antt =====
-- The results that a call of `StartFileTransfer` can return.
use trftp.Base.{Option, none, some, List}
use trftp.Message.{MessageId, ntf, chk, rdy, cxl, done, fin, TrftpMessage}
use trftp.ServerTransaction.{ServerTransaction, Outcome}
use trftp.Server.{Course, drive, give_up, after_data, after_info, after_ntf}

pub data IsResult : MessageId → Type 0 where
  not_found : IsResult ntf
  aborted : IsResult cxl
  sent : IsResult fin

after_data-IsResult :
    (raw : TrftpMessage) (o : Option MessageId) (t : ServerTransaction) (os : List Outcome)
    → IsResult (after_data raw o t os).0
unfolding after_data give_up
after_data-IsResult raw (some done) t os = sent
after_data-IsResult raw (some cxl) t os = aborted
after_data-IsResult raw _ t os = aborted

after_info-IsResult :
    (c : Course) (o : Option MessageId) (t : ServerTransaction) (os : List Outcome)
    → IsResult (after_info c o t os).0
unfolding after_info give_up
after_info-IsResult c (some rdy) t os = after_data-IsResult c.raw _ _ _
after_info-IsResult c (some cxl) t os = aborted
after_info-IsResult c _ t os = aborted

after_ntf-IsResult :
    (c : Course) (o : Option MessageId) (t : ServerTransaction) (os : List Outcome)
    → IsResult (after_ntf c o t os).0
unfolding after_ntf give_up
after_ntf-IsResult c none t os = not_found
after_ntf-IsResult c (some chk) t os = after_info-IsResult c _ _ _
after_ntf-IsResult c (some cxl) t os = aborted
after_ntf-IsResult c _ t os = aborted

pub drive-IsResult : (c : Course) (t : ServerTransaction) → IsResult (drive c t).0
unfolding drive
drive-IsResult c t = after_ntf-IsResult c _ _ _
