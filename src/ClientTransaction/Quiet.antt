-- ===== src/ClientTransaction/Quiet.antt =====
-- When a transaction is not alive, and what the handlers do to the handle of the receiving thread.
use trftp.Base.{none, ℕ, ◌-◌, ◌≡◌, ◌≢◌, arith, inl, inr, true, false, List, ◌==◌, Bool-cases}
use trftp.Message.{
  MessageId, ntf, info, rdy, cxl, data', done, fin, TrftpMessage, TrftpHeader, header_size,
  message_id,
}
use trftp.Integrity.{validate_message_integrity}
use trftp.ServerTransaction.{Address}
use trftp.ClientTransaction.{
  ClientTransaction, Env, send_message, on_ntf, on_info, accept_info, on_data, accept_data,
  complete_file, on_fin, on_cxl, dispatch, on_receive, data_expected,
}

-- Neither receiving nor waiting for FIN.
abbrev pub IsQuiet : ClientTransaction → Type 0
IsQuiet t = (t.status ≢ rdy) × (t.status ≢ data') × (t.status ≢ done)

-- An open file exists.
abbrev pub IsBacked : ClientTransaction → Type 0
IsBacked t = t.stream_open ≡ true → t.new_file ≢ none

-- From a transaction that is alive a handler leaves one that is alive or quiet; it never lets go of
-- the thread; and an open file still exists.
pub record Keeps (t u : ClientTransaction) : Type 0 where
  pub settles : t.is_active ≡ true → u.is_active ≡ false → IsQuiet u
  pub holds : t.thread ≡ true → u.thread ≡ true
  pub backs : IsBacked t → IsBacked u

pub cancel-Keeps : (raw : TrftpMessage) (t : ClientTransaction) → Keeps t (send_message cxl raw t).0
unfolding send_message
cancel-Keeps raw t = ground arith

on_ntf-Keeps :
    (env : Env) (p : List ℕ) (n : ℕ) (t : ClientTransaction) → Keeps t (on_ntf env p n t).0
unfolding on_ntf send_message
on_ntf-Keeps env p n t = ground arith

accept_info-Keeps :
    (env : Env) (p : List ℕ) (t : ClientTransaction) → Keeps t (accept_info env p t).0
unfolding accept_info send_message
accept_info-Keeps env p t = ground arith

on_info-Keeps :
    (env : Env) (p : List ℕ) (n : ℕ) (t : ClientTransaction) → Keeps t (on_info env p n t).0
unfolding on_info
on_info-Keeps env p n t = ground (arith, cancel-Keeps env.raw t, accept_info-Keeps env p t)

accept_data-Keeps :
    (env : Env) (p : List ℕ) (n : ℕ) (t : ClientTransaction) → Keeps t (accept_data env p n t).0
unfolding accept_data complete_file send_message
accept_data-Keeps env p n t = ground arith

on_data-Keeps :
    (env : Env) (h : TrftpHeader) (p : List ℕ) (n : ℕ) (t : ClientTransaction)
    → Keeps t (on_data env h p n t).0
unfolding on_data
on_data-Keeps env h p n t = elim (Bool-cases (data_expected h n t)) [
  | inr bad ↦ rw (bad, on_data) (cancel-Keeps env.raw t)
  | inl good ↦
      rw (good, on_data)
        (elim (Bool-cases (h.psn == t.packet_sequence_number)) [
          | inr gap ↦ rw gap (unfold send_message in (ground arith))
          | inl next ↦ rw next (accept_data-Keeps env p n t)
        ])
]

on_fin-Keeps : (env : Env) (n : ℕ) (t : ClientTransaction) → Keeps t (on_fin env n t).0
unfolding on_fin send_message
on_fin-Keeps env n t = ground arith

on_cxl-Keeps : (env : Env) (t : ClientTransaction) → Keeps t (on_cxl env t).0
unfolding on_cxl send_message
on_cxl-Keeps env t = ground arith

same-Keeps : (t : ClientTransaction) → Keeps t t
same-Keeps t = ground arith

dispatch-Keeps :
    (id : MessageId) (env : Env) (m : TrftpMessage) (n : ℕ) (t : ClientTransaction)
    → Keeps t (dispatch id env m n t).0
unfolding dispatch
dispatch-Keeps ntf env m n t = on_ntf-Keeps env m.payload n t
dispatch-Keeps info env m n t = on_info-Keeps env m.payload n t
dispatch-Keeps data' env m n t = on_data-Keeps env m.header m.payload n t
dispatch-Keeps fin env m n t = on_fin-Keeps env n t
dispatch-Keeps cxl env m n t = on_cxl-Keeps env t
dispatch-Keeps _ env m n t = same-Keeps t

-- Every message.
pub on_receive-Keeps :
    (env : Env) (m : TrftpMessage) (len : ℕ) (addr : Address) (t : ClientTransaction)
    → Keeps t (on_receive env m len addr t).0
unfolding on_receive
on_receive-Keeps env m len addr t =
    let t' = record t { server_address = addr } in
    elim (Bool-cases (validate_message_integrity m len)) [
      | inr bad ↦ rw (bad, on_receive) (ground arith)
      | inl good ↦
          let k = dispatch-Keeps (message_id m.header.xid) env m (len - header_size) t' in
          rw (good, on_receive) (record { settles = k.settles; holds = k.holds; backs = k.backs })
    ]
