-- ===== src/Client/Threads/Opens.antt =====
-- What `Begin` leaves, behind the join of the old thread.
use trftp.Base.{
  ℕ, ◌-◌, ◌≡◌, refl, arith, Bool, true, false, List, [], ◌∷◌, Bool-cases, inl, inr, if◌then◌else◌,
}
use trftp.Message.{ntf, TrftpMessage, header_size, message_id}
use trftp.Integrity.{validate_message_integrity}
use trftp.ServerTransaction.{Address}
use trftp.ClientTransaction.{
  ClientTransaction, Env, Result, after, on_receive, on_ntf, dispatch, send_message, joins_thread,
}
use trftp.ClientTransaction.Invariant.{Inv, on_receive-Inv, on_ntf-Inv}
use trftp.ClientTransaction.Quiet.{IsQuiet, IsBacked}
use trftp.ClientTransaction.Delivery.{delivers}
use trftp.Client.Stuck.{starts}
use trftp.Client.Threads.{Opening, continue_begin}

-- The end of `Begin` on a quiet transaction.
pub record Opens (r : Result) : Type 0 where
  pub sound : Inv r.0
  pub quiet : IsQuiet r.0
  pub holds : starts r.1 ≡ true → r.0.thread ≡ true
  pub silent : delivers r.1 ≡ false

on_ntf-Opens :
    (env : Env) (p : List ℕ) (n : ℕ) (t : ClientTransaction)
    → Inv t
    → IsQuiet t
    → Inv (on_ntf env p n t).0
    → t.thread ≡ false
    → Opens (on_ntf env p n t)
unfolding on_ntf send_message
on_ntf-Opens env p n t v q w e = ground arith

quiet_sound : (t : ClientTransaction) → IsQuiet t → IsBacked t → Inv (record t { thread = false })
quiet_sound t q b = ground (arith, b)

on_receive-Opens :
    (env : Env) (m : TrftpMessage) (len : ℕ) (addr : Address) (t : ClientTransaction)
    → message_id m.header.xid ≡ ntf
    → Inv t
    → IsQuiet t
    → t.thread ≡ false
    → Opens (on_receive env m len addr t)
unfolding on_receive
on_receive-Opens env m len addr t e v q h =
    let t' = record t { server_address = addr } in
    let w = on_receive-Inv env m len addr t v in
    elim (Bool-cases (validate_message_integrity m len)) [
      | inr bad ↦ rw (bad, on_receive) (ground arith)
      | inl good ↦
          let v' : Inv t' = record {
            writing = v.writing;
            file_there = v.file_there;
            verified = v.verified;
          } in
          let w' : Inv (on_ntf env m.payload (len - header_size) t').0 =
            on_ntf-Inv env m.payload (len - header_size) t' v' in
          rw (good, e, on_receive)
            (unfold dispatch in (on_ntf-Opens env m.payload (len - header_size) t' v' q w' h))
    ]

joined-Opens :
    (b : Bool) (r : Result) → Opens r → Opens (after (if b then joins_thread ∷ [] else []) r)
joined-Opens true r o = record {
  sound = o.sound;
  quiet = o.quiet;
  holds = o.holds;
  silent = o.silent;
}
joined-Opens false r o = o

pub begin-Opens :
    (o : Opening) (t : ClientTransaction)
    → message_id o.msg.header.xid ≡ ntf
    → IsQuiet t
    → IsBacked t
    → Opens (continue_begin o t)
begin-Opens o t e q b = joined-Opens t.thread _ (
    on_receive-Opens (record (o.env) { on_thread = false }) o.msg o.len o.addr
      (record t { thread = false }) e (quiet_sound t q b) q refl)
