-- ===== src/Tests/ClientThreadTests.antt =====
-- Interleavings of a client's two threads: a first transfer begins, and a second one begins while
-- the receiving thread of the first is about to end.
use trftp.Base.{◌≡◌, refl, true, false, some, none, []}
use trftp.Message.{ntf, fin, u32_bytes, message_id, TrftpMessage}
use trftp.Wire.{received}
use trftp.ClientTransaction.{timeout, new_transaction}
use trftp.ClientTransaction.Sending.{control, control-validate}
use trftp.ClientTransaction.Invariant.{Inv}
use trftp.ClientTransaction.Quiet.{IsQuiet, IsBacked}
use trftp.Client.{new_client}
use trftp.Client.Threads.{
  Opening, System, Step, handled, round, cleared, resets, joined, begins, joins, Reach, here, next,
}
use trftp.Client.Threads.Sound.{AllVerified}
use trftp.Client.Threads.Invariant.{fresh, Reach-client}
use trftp.Client.Threads.Missed.{
  IsNotification, IsDeaf, begun_by, continue_begin_answers, notification_missed,
}
use trftp.Tests.{raw_message, some_address, some_env, receiving}

abbrev ntf_message : TrftpMessage
ntf_message = received raw_message (control ntf (u32_bytes 2) raw_message some_address)

abbrev opening : Opening
opening = record { env = some_env; msg = ntf_message; len = 36; addr = some_address }

opening-ntf : message_id opening.msg.header.xid ≡ ntf
unfolding message_id
opening-ntf = refl

opening-IsNotification : IsNotification opening
opening-IsNotification = record {
  is_ntf = opening-ntf;
  intact = control-validate raw_message ntf (u32_bytes 2) raw_message some_address;
  sized = refl;
}

abbrev start : System
start = fresh (new_client 1 none)

start_idle : start.client.transaction.is_active ≡ false
unfolding new_client new_transaction
start_idle = refl

abbrev begun : System
begun = record start {
  client = record (start.client) {
    transaction = record (start.client.transaction) { is_active = true };
  };
  opening = some opening;
}

transfer_begins : Reach start (joined (cleared begun) opening)
transfer_begins =
    next
      (next (next here (begins start opening refl start_idle opening-ntf))
        (resets begun opening refl refl))
      (joins (cleared begun) opening refl refl refl
        (continue_begin_answers opening (cleared begun).client.transaction opening-IsNotification
          λ e. cc).3)

Reach-client_example :
    let u = joined (cleared begun) opening in
    (u.client.transaction.is_active ≡ false → IsQuiet u.client.transaction)
    × (u.receiving ≡ true → u.client.transaction.thread ≡ true)
    × IsBacked u.client.transaction
    × (u.resetting ≡ false → Inv u.client.transaction)
    × AllVerified u.handed
Reach-client_example = Reach-client 1 none transfer_begins

-- The first transfer has ended, and its thread has not left its loop.
abbrev ending : System
ending = record start {
  client = record (start.client) {
    transaction = record (receiving fin 1 3 0 []) { is_active = false };
  };
  receiving = true;
}

notification_missed_example :
    let s1 = begun_by ending opening in
    let s2 = record (handled s1 (round s1 some_env timeout)) { receiving = false } in
    let s3 = cleared s2 in
    let s4 = joined s3 opening in
    let s5 = record s4 { receiving = false } in
    Step ending s1 × Step s1 s2 × Step s2 s3 × Step s3 s4 × Step s4 s5 × IsDeaf s5
notification_missed_example =
    notification_missed ending opening some_env refl refl refl (λ e. cc) opening-IsNotification
      (λ e. cc)
