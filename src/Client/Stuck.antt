-- ===== src/Client/Stuck.antt =====
-- A first message that carries the identifier NTF and fails the integrity check.
use trftp.Base.{
  ℕ, ◌≡◌, refl, arith, Bool, true, false, List, [], ◌∷◌, ◌++◌, if◌then◌else◌, ap, ◌∙◌, if-true,
  if-false, subst, sym,
}
use trftp.Message.{ntf, TrftpMessage, message_id}
use trftp.Integrity.{validate_message_integrity}
use trftp.ServerTransaction.{Address}
use trftp.ClientTransaction.{
  ClientTransaction, Env, Effect, starts_thread, Received, timeout, datagram, begin, reset,
  on_receive,
}
use trftp.Client.{Client, listen_round, listen}

-- Whether the receiving thread is started.
abbrev pub starts : List Effect → Bool
starts [] = false
starts (starts_thread ∷ es) = true
starts (_ ∷ es) = starts es

-- `Begin` marks the transaction as alive before the message is checked: after a corrupt NTF it is
-- alive, and no thread runs that could end it.
begin_corrupt :
    (env : Env) (m : TrftpMessage) (len : ℕ) (addr : Address) (t : ClientTransaction)
    → message_id m.header.xid ≡ ntf
    → validate_message_integrity m len ≡ false
    → let (u, es) = begin env m len addr t in
      (u.is_active ≡ true) × (u.thread ≡ false) × (starts es ≡ false) × (u.status ≡ t.status)
unfolding begin reset on_receive
begin_corrupt env m len addr t e bad = ground arith

-- A client whose transaction is alive does nothing in a round.
listen_round-alive :
    (env : Env) (r : Received) (c : Client)
    → c.transaction.is_active ≡ true
    → listen_round env r c ≡ (c, [])
unfolding listen_round
listen_round-alive env timeout c e = refl
listen_round-alive env (datagram m len addr) c e = if-true _ _ e

listen-same :
    (b : Bool) (c : Client) (u v : Client × List Effect)
    → u ≡ (c, [])
    → v ≡ (c, [])
    → let z : Client × List Effect = (c, []) in
      let w : Client × List Effect = (v.0, u.1 ++ v.1) in (if b then w else z) ≡ z
listen-same false c u v p q = refl
listen-same true c u v p q = λ i. ((q i).0, (p i).1 ++ (q i).1)

-- A client whose transaction is alive ignores whatever its port receives.
listen_alive :
    (rs : List (Env × Received)) (c : Client)
    → c.transaction.is_active ≡ true
    → listen rs c ≡ (c, [])
unfolding listen
listen_alive [] c e = refl
listen_alive ((env, r) ∷ rs) c e =
    let step = listen_round-alive env r c e in
    listen-same c.is_running c (listen_round env r c) (listen rs (listen_round env r c).0) step
      (ap (λ x. listen rs x.0) step ∙ listen_alive rs c e)

-- A client that is not alive and whose port receives a message with the identifier NTF that fails
-- the integrity check: no receiving thread is started, the file transaction's status stays, and
-- from then on the client does nothing at all, whatever else its port receives.
pub corrupt_notification_blocks :
    (env : Env) (m : TrftpMessage) (len : ℕ) (addr : Address) (c : Client)
    (rs : List (Env × Received))
    → c.transaction.is_active ≡ false
    → message_id m.header.xid ≡ ntf
    → validate_message_integrity m len ≡ false
    → let (u, es) = listen_round env (datagram m len addr) c in
      (starts es ≡ false)
      × (u.transaction.thread ≡ false)
      × (u.transaction.status ≡ c.transaction.status)
      × (listen rs u ≡ (u, []))
unfolding listen_round
corrupt_notification_blocks env m len addr c rs idle e bad =
    let (alive, no_thread, not_started, same_status) =
      begin_corrupt env m len addr c.transaction e bad in
    subst
      (λ (x : Client × List Effect).
        (starts x.1 ≡ false)
        × (x.0.transaction.thread ≡ false)
        × (x.0.transaction.status ≡ c.transaction.status)
        × (listen rs x.0 ≡ (x.0, [])))
      (sym (if-false _ _ idle)) (not_started, no_thread, same_status, listen_alive rs _ alive)
