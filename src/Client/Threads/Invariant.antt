-- ===== src/Client/Threads/Invariant.antt =====
-- What holds of a client under every interleaving of its two threads.
use trftp.Base.{sym, ◌∙◌, ℕ, ◌≡◌, refl, arith, Bool, true, false, Option, none, List, []}
use trftp.ClientTransaction.{
  ClientTransaction, Env, reset, send_message, Received, timeout, datagram, worker_round,
  new_transaction,
}
use trftp.ClientTransaction.Invariant.{Inv, worker_round-Inv, new_transaction-Inv}
use trftp.ClientTransaction.Quiet.{IsQuiet, IsBacked, Keeps, on_receive-Keeps, cancel-Keeps}
use trftp.ClientTransaction.Delivery.{worker_round-Delivered, Delivered-Verified}
use trftp.Client.{Client, new_client, attach_file_handler, detach_file_handler}
use trftp.Client.Threads.{
  System, clear, continue_begin, handled, round, Step, begins, resets, joins, ends, times_out,
  receives, attaches, detaches, Reach, here, next,
}
use trftp.Client.Threads.Opens.{begin-Opens}
use trftp.Client.Threads.Sound.{AllVerified, IsSound, handled-AllVerified}

round-Keeps :
    (env : Env) (r : Received) (t : ClientTransaction) → Keeps t (worker_round env r t).0.0
unfolding worker_round
round-Keeps env timeout t = cancel-Keeps env.raw t
round-Keeps env (datagram m len addr) t =
    on_receive-Keeps (record env { on_thread = true }) m len addr t

timed_out-IsQuiet : (env : Env) (t : ClientTransaction) → IsQuiet (worker_round env timeout t).0.0
unfolding worker_round send_message
timed_out-IsQuiet env t = ground arith

round-verified :
    (s : System) (env : Env) (r : Received)
    → IsSound s
    → AllVerified (handled s (round s env r)).handed
round-verified s env r v =
    let t = s.client.transaction in
    handled-AllVerified s (round s env r) v.verified
      λ e h. (Delivered-Verified (v.inv e) (worker_round-Delivered env r t h).0).1

clear-IsBacked : (t : ClientTransaction) → IsBacked (clear t)
unfolding clear reset
clear-IsBacked t h = absurd (cc h)

clear_keeps :
    (t : ClientTransaction)
    → ((clear t).status ≡ t.status)
      × ((clear t).thread ≡ t.thread)
      × ((clear t).is_active ≡ t.is_active)
unfolding clear reset
clear_keeps t = (refl, refl, refl)

same_status-IsQuiet : (t u : ClientTransaction) → u.status ≡ t.status → IsQuiet t → IsQuiet u
same_status-IsQuiet t u e (a, b, c) = (λ h. a (sym e ∙ h), λ h. b (sym e ∙ h), λ h. c (sym e ∙ h))

same-Inv : (t : ClientTransaction) (b : Bool) → Inv t → Inv (record t { is_active = b })
same-Inv t b v = record { writing = v.writing; file_there = v.file_there; verified = v.verified }

Step-IsSound : {s u : System} → Step s u → IsSound s → IsSound u
unfolding attach_file_handler detach_file_handler
Step-IsSound (begins s o free idle id) v = record {
  inv = λ e. same-Inv s.client.transaction true (v.started free);
  backed = v.backed;
  quiet = λ h. cc;
  opened = λ o' h r. v.quiet idle;
  notified = λ o' h. cc (h, id);
  joinable = v.joinable;
  started = λ h. absurd (cc h);
  verified = v.verified;
}
Step-IsSound (resets s o pending early) v =
    let t = s.client.transaction in
    let (status, thread, active) = clear_keeps t in
    record {
      inv = λ h. absurd (cc h);
      backed = clear-IsBacked t;
      quiet = λ h. same_status-IsQuiet t (clear t) status (v.quiet (sym active ∙ h));
      opened = λ o' h r. same_status-IsQuiet t (clear t) status (v.opened o' h r);
      notified = v.notified;
      joinable = λ h. thread ∙ v.joinable h;
      started = λ h. absurd (cc (h, pending));
      verified = v.verified;
    }
Step-IsSound (joins s o pending cleared ended sent) v =
    let t = s.client.transaction in
    let k = begin-Opens o t (v.notified o pending) (v.opened o pending ended) v.backed in
    record {
      inv = λ h. k.sound;
      backed = k.sound.file_there;
      quiet = λ h. k.quiet;
      opened = λ o' h. absurd (cc h);
      notified = λ o' h. absurd (cc h);
      joinable = k.holds;
      started = λ h. k.sound;
      verified =
          handled-AllVerified s (continue_begin o t) v.verified (λ e h. absurd (cc (h, k.silent)));
    }
Step-IsSound (ends s running idle) v = record {
  inv = v.inv;
  backed = v.backed;
  quiet = v.quiet;
  opened = λ o h r. v.quiet idle;
  notified = v.notified;
  joinable = λ h. absurd (cc h);
  started = v.started;
  verified = v.verified;
}
Step-IsSound (times_out s env running active sent) v =
    let t = s.client.transaction in
    record {
      inv = λ e. worker_round-Inv env timeout t (v.inv e);
      backed = (round-Keeps env timeout t).backs v.backed;
      quiet = λ h. timed_out-IsQuiet env t;
      opened = λ o h r. timed_out-IsQuiet env t;
      notified = v.notified;
      joinable = λ h. absurd (cc h);
      started = λ h. worker_round-Inv env timeout t (v.started h);
      verified = round-verified s env timeout v;
    }
Step-IsSound (receives s env m len addr running active goes sent) v =
    let t = s.client.transaction in
    let r = datagram m len addr in
    let k = round-Keeps env r t in
    record {
      inv = λ e. worker_round-Inv env r t (v.inv e);
      backed = k.backs v.backed;
      quiet = k.settles active;
      opened = λ o h e. absurd (cc (e, running));
      notified = v.notified;
      joinable = λ h. k.holds (v.joinable running);
      started = λ h. worker_round-Inv env r t (v.started h);
      verified = round-verified s env r v;
    }
Step-IsSound (attaches s) v = record {
  inv = v.inv;
  backed = v.backed;
  quiet = v.quiet;
  opened = v.opened;
  notified = v.notified;
  joinable = v.joinable;
  started = v.started;
  verified = v.verified;
}
Step-IsSound (detaches s) v = record {
  inv = v.inv;
  backed = v.backed;
  quiet = v.quiet;
  opened = v.opened;
  notified = v.notified;
  joinable = v.joinable;
  started = v.started;
  verified = v.verified;
}

-- A client behind its constructor: nothing is pending, and there is no receiving thread.
abbrev pub fresh : Client → System
fresh c = record {
  client = c;
  opening = none;
  resetting = false;
  receiving = false;
  effects = [];
  handed = [];
}

new_client-IsSound :
    (version : ℕ) (left : Option (List ℕ)) → IsSound (fresh (new_client version left))
unfolding new_client new_transaction
new_client-IsSound version left = record {
  inv = λ e. unfold new_transaction in (new_transaction-Inv true version left);
  started = λ e. unfold new_transaction in (new_transaction-Inv true version left);
  backed = λ h. absurd (cc h);
  quiet = λ h. ground arith;
  opened = λ o h. absurd (cc h);
  notified = λ o h. absurd (cc h);
  joinable = λ h. absurd (cc h);
  verified = tt;
}

Reach-IsSound : {s u : System} → IsSound s → Reach s u → IsSound u
Reach-IsSound v here = v
Reach-IsSound v (next r st) = Step-IsSound st (Reach-IsSound v r)

-- In every state that a client reaches from its constructor, whatever messages and time-outs its
-- two threads meet and however their steps interleave: a transaction that is not alive is neither
-- receiving nor waiting for FIN; the receiving thread, if it is in its loop, can be joined; an open
-- file exists; the transfer has its invariant, but while a call of `Begin` has cleared it and waits
-- for the old thread; and every file that the application was handed, but in such a time, had the
-- announced length and CRC.
pub Reach-client :
    (version : ℕ) (left : Option (List ℕ)) {u : System}
    → Reach (fresh (new_client version left)) u
    → (u.client.transaction.is_active ≡ false → IsQuiet u.client.transaction)
      × (u.receiving ≡ true → u.client.transaction.thread ≡ true)
      × IsBacked u.client.transaction
      × (u.resetting ≡ false → Inv u.client.transaction)
      × AllVerified u.handed
Reach-client version left r =
    let v = Reach-IsSound (new_client-IsSound version left) r in
    (v.quiet, v.joinable, v.backed, v.inv, v.verified)
