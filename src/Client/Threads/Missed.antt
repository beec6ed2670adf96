-- ===== src/Client/Threads/Missed.antt =====
-- A notification that comes while the receiving thread of the transfer before it is about to end.
use trftp.Base.{◌-◌, ◌≡◌, ◌≢◌, ne→==, refl, ◌∙◌, arith, true, false, none, some}
use trftp.Message.{ntf, chk, header_size, message_id}
use trftp.Integrity.{validate_message_integrity}
use trftp.ClientTransaction.{
  ClientTransaction, Env, reset, on_receive, on_ntf, dispatch, send_message, timeout, worker_round,
}
use trftp.Client.{attach_file_handler, detach_file_handler}
use trftp.Client.Stuck.{starts}
use trftp.Client.Threads.{
  Opening, System, cleared, clear, continue_begin, handled, joined, round, can_send, Step, begins,
  resets, joins, ends, times_out, receives, attaches, detaches,
}

-- An NTF that passes its tests.
pub record IsNotification (o : Opening) : Type 0 where
  pub is_ntf : message_id o.msg.header.xid ≡ ntf
  pub intact : validate_message_integrity o.msg o.len ≡ true
  pub sized : o.len - header_size ≡ 4

-- `Begin` answers it by CHK to its sender and starts the thread; whether the transaction is alive
-- stays.
pub continue_begin_answers :
    (o : Opening) (t : ClientTransaction)
    → IsNotification o
    → o.addr.port ≢ 0
    → let (u, es) = continue_begin o t in
      (u.status ≡ chk) × (u.is_active ≡ t.is_active) × (starts es ≡ true) × (can_send es ≡ true)
unfolding on_receive dispatch on_ntf send_message
continue_begin_answers o t v h = ground (arith, v, ne→== o.addr.port 0 h)

timed_out_dead :
    (env : Env) (t : ClientTransaction)
    → t.server_address.port ≢ 0
    → let r = (worker_round env timeout t).0 in (r.0.is_active ≡ false) × (can_send r.1 ≡ true)
unfolding worker_round send_message
timed_out_dead env t h = (refl, rw (ne→== t.server_address.port 0 h) refl)

clear_dead : (t : ClientTransaction) → t.is_active ≡ false → (clear t).is_active ≡ false
unfolding clear reset
clear_dead t h = h

-- Behind the first line of `Begin`.
abbrev pub begun_by : System → Opening → System
begun_by s o = record s {
  client = record (s.client) { transaction = record (s.client.transaction) { is_active = true } };
  opening = some o;
  resetting = false;
}

-- A client in CHK that is not alive and has no receiving thread.
pub record IsDeaf (s : System) : Type 0 where
  pub status : s.client.transaction.status ≡ chk
  pub not_receiving : s.receiving ≡ false
  pub not_opening : s.opening ≡ none
  pub not_alive : s.client.transaction.is_active ≡ false

-- Only another notification changes that: every step that is not the beginning of another transfer
-- leaves it so.
IsDeaf-Step : {s u : System} → Step s u → IsDeaf s → u.opening ≡ none → IsDeaf u
unfolding attach_file_handler detach_file_handler
IsDeaf-Step (begins s o free idle id) d h = absurd (cc h)
IsDeaf-Step (resets s o pending early) d h = absurd (cc (d.not_opening, pending))
IsDeaf-Step (joins s o pending cleared ended sent) d h = absurd (cc (d.not_opening, pending))
IsDeaf-Step (ends s running idle) d h = absurd (cc (d.not_receiving, running))
IsDeaf-Step (times_out s env running active sent) d h = absurd (cc (d.not_receiving, running))
IsDeaf-Step (receives s env m len addr running active goes sent) d h =
    absurd (cc (d.not_receiving, running))
IsDeaf-Step (attaches s) d h = record {
  status = d.status;
  not_receiving = d.not_receiving;
  not_opening = d.not_opening;
  not_alive = d.not_alive;
}
IsDeaf-Step (detaches s) d h = record {
  status = d.status;
  not_receiving = d.not_receiving;
  not_opening = d.not_opening;
  not_alive = d.not_alive;
}

-- The receiving thread of an earlier transfer has marked that as ended, and has not left its loop,
-- when a notification comes that passes every test, no call of `Begin` being pending, and neither
-- the earlier server's port nor the new one's is 0. Then it can happen that `Begin` marks the
-- transaction as alive again; that the old thread, which finds it so, waits in vain, cancels, and
-- leaves its loop; that `Begin` clears the fields, joins that thread, answers the notification by
-- CHK and starts the new thread; and that this ends at once. The client is left in CHK, not alive,
-- with no thread that could receive the server's INFO.
pub notification_missed :
    (s : System) (o : Opening) (env : Env)
    → s.opening ≡ none
    → s.client.transaction.is_active ≡ false
    → s.receiving ≡ true
    → s.client.transaction.server_address.port ≢ 0
    → IsNotification o
    → o.addr.port ≢ 0
    → let s1 = begun_by s o in
      let s2 = record (handled s1 (round s1 env timeout)) { receiving = false } in
      let s3 = cleared s2 in
      let s4 = joined s3 o in
      let s5 = record s4 { receiving = false } in
      Step s s1 × Step s1 s2 × Step s2 s3 × Step s3 s4 × Step s4 s5 × IsDeaf s5
notification_missed s o env free idle running old_port v port =
    let s1 = begun_by s o in
    let s2 = record (handled s1 (round s1 env timeout)) { receiving = false } in
    let s3 = cleared s2 in
    let (dead, cancelled) = timed_out_dead env s1.client.transaction old_port in
    let (status, alive, started, answered) =
      continue_begin_answers o s3.client.transaction v port in
    let still = alive ∙ clear_dead s2.client.transaction dead in
    (
      begins s o free idle v.is_ntf,
      times_out s1 env running refl cancelled,
      resets s2 o refl refl,
      joins s3 o refl refl refl answered,
      ends (joined s3 o) started still,
      record { status = status; not_receiving = refl; not_opening = refl; not_alive = still },
    )
