-- ===== src/ClientTransaction/Invariant.antt =====
-- What holds of a client's transfer after any messages, and what is handed to the application.
use trftp.Base.{
  ℕ, ◌+◌, ◌-◌, ◌≡◌, ◌≢◌, arith, ◌⊎◌, inl, inr, Bool, true, false, Option, none, some, List, [], ◌∷◌,
  ◌==◌, Bool-cases, take, u32,
}
use trftp.Message.{
  MessageId, ntf, info, rdy, cxl, data', done, fin, TrftpMessage, TrftpHeader, header_size,
  message_id, same,
}
use trftp.Crc.{calculate_file_crc32}
use trftp.Integrity.{validate_message_integrity}
use trftp.ServerTransaction.{Address}
use trftp.ClientTransaction.{
  ClientTransaction, Env, new_transaction, send_message, reset, on_ntf, on_info, accept_info,
  on_data, accept_data, complete_file, on_fin, on_cxl, dispatch, on_receive, begin, file_size,
  append_file, data_expected, Received, timeout, datagram, worker, worker_round,
}

-- The received file is the announced one.
abbrev pub Verified : ClientTransaction → Type 0
Verified t =
    (t.stream_open ≡ false)
    × (file_size t.new_file ≡ t.new_file_size)
    × (calculate_file_crc32 t.new_file ≡ t.new_file_crc32)

pub record Inv (t : ClientTransaction) : Type 0 where
  pub writing : (t.status ≡ rdy) ⊎ (t.status ≡ data') → t.stream_open ≡ true
  pub file_there : t.stream_open ≡ true → t.new_file ≢ none
  pub verified : t.status ≡ done → Verified t

pub new_transaction-Inv :
    (client : Bool) (version : ℕ) (left : Option (List ℕ))
    → Inv (new_transaction client version left)
unfolding new_transaction
new_transaction-Inv client version left = ground arith

cancel-Inv : (raw : TrftpMessage) (t : ClientTransaction) → Inv t → Inv (send_message cxl raw t).0
unfolding send_message
cancel-Inv raw t v = ground arith

pub on_ntf-Inv :
    (env : Env) (p : List ℕ) (n : ℕ) (t : ClientTransaction) → Inv t → Inv (on_ntf env p n t).0
unfolding on_ntf send_message
on_ntf-Inv env p n t v = ground arith

accept_info-Inv :
    (env : Env) (p : List ℕ) (t : ClientTransaction) → Inv t → Inv (accept_info env p t).0
unfolding accept_info send_message
accept_info-Inv env p t v = ground arith

on_info-Inv :
    (env : Env) (p : List ℕ) (n : ℕ) (t : ClientTransaction) → Inv t → Inv (on_info env p n t).0
unfolding on_info
on_info-Inv env p n t v = ground (arith, cancel-Inv env.raw t, accept_info-Inv env p t)

complete_file-Inv :
    (env : Env) (t : ClientTransaction) → t.new_file ≢ none → Inv (complete_file env t).0
unfolding complete_file send_message
complete_file-Inv env t h = ground arith

append_ne_none : (c : Option (List ℕ)) (bytes : List ℕ) → append_file c bytes ≢ none
append_ne_none none bytes e = cc
append_ne_none (some c) bytes e = cc

accept_data-Inv :
    (env : Env) (p : List ℕ) (n : ℕ) (t : ClientTransaction) → Inv t → Inv (accept_data env p n t).0
unfolding accept_data
accept_data-Inv env p n t v =
    let t' = record t {
      new_file = append_file t.new_file (take n p);
      status = data';
      packet_sequence_number = u32 (t.packet_sequence_number + 1);
    } in
    let there = append_ne_none t.new_file (take n p) in
    ground (arith, cancel-Inv env.raw t, complete_file-Inv env t', there)

on_data-Inv :
    (env : Env) (h : TrftpHeader) (p : List ℕ) (n : ℕ) (t : ClientTransaction)
    → Inv t
    → Inv (on_data env h p n t).0
unfolding on_data
on_data-Inv env h p n t v = elim (Bool-cases (data_expected h n t)) [
  | inr bad ↦ rw (bad, on_data) (cancel-Inv env.raw t v)
  | inl good ↦
      rw (good, on_data)
        (elim (Bool-cases (h.psn == t.packet_sequence_number)) [
          | inr gap ↦ rw gap (unfold send_message in v)
          | inl next ↦ rw next (accept_data-Inv env p n t v)
        ])
]

on_fin-Inv : (env : Env) (n : ℕ) (t : ClientTransaction) → Inv t → Inv (on_fin env n t).0
unfolding on_fin
on_fin-Inv env n t v = ground (arith, cancel-Inv env.raw t)

on_cxl-Inv : (env : Env) (t : ClientTransaction) → Inv t → Inv (on_cxl env t).0
unfolding on_cxl send_message
on_cxl-Inv env t v = ground arith

dispatch-Inv :
    (id : MessageId) (env : Env) (m : TrftpMessage) (n : ℕ) (t : ClientTransaction)
    → Inv t
    → Inv (dispatch id env m n t).0
unfolding dispatch
dispatch-Inv ntf env m n t v = on_ntf-Inv env m.payload n t v
dispatch-Inv info env m n t v = on_info-Inv env m.payload n t v
dispatch-Inv data' env m n t v = on_data-Inv env m.header m.payload n t v
dispatch-Inv fin env m n t v = on_fin-Inv env n t v
dispatch-Inv cxl env m n t v = on_cxl-Inv env t v
dispatch-Inv _ env m n t v = v

-- Every message keeps the invariant: in particular a client that is in the state DONE holds a
-- closed file of the announced length and CRC.
pub on_receive-Inv :
    (env : Env) (m : TrftpMessage) (len : ℕ) (addr : Address) (t : ClientTransaction)
    → Inv t
    → Inv (on_receive env m len addr t).0
unfolding on_receive
on_receive-Inv env m len addr t v =
    let t' = record t { server_address = addr } in
    let v' : Inv t' = record {
      writing = v.writing;
      file_there = v.file_there;
      verified = v.verified;
    } in
    elim (Bool-cases (validate_message_integrity m len)) [
      | inr bad ↦ rw (bad, on_receive) v'
      | inl good ↦
          rw (good, on_receive)
            (dispatch-Inv (message_id m.header.xid) env m (len - header_size) t' v')
    ]

-- A transaction whose status is CXL or FIN.
abbrev pub IsIdle : ClientTransaction → Type 0
IsIdle t = (t.status ≡ cxl) ⊎ (t.status ≡ fin)

reset-Inv :
    (t : ClientTransaction) (b : Bool) → IsIdle t → Inv (reset (record t { is_active = b })).0
unfolding reset
reset-Inv t b idle = ground arith

-- `Begin`, on any message, keeps the invariant on a transaction whose status is CXL or FIN.
begin-Inv :
    (env : Env) (m : TrftpMessage) (len : ℕ) (addr : Address) (t : ClientTransaction)
    → IsIdle t
    → Inv t
    → Inv (begin env m len addr t).0
unfolding begin
begin-Inv env m len addr t idle v = elim (Bool-cases (same (message_id m.header.xid) ntf)) [
  | inr off ↦
      rw (off, begin)
        (record { writing = v.writing; file_there = v.file_there; verified = v.verified })
  | inl on ↦
      rw (on, begin)
        (on_receive-Inv (record env { on_thread = false }) m len addr
          (reset (record t { is_active = true })).0 (reset-Inv t true idle))
]

pub worker_round-Inv :
    (env : Env) (r : Received) (t : ClientTransaction) → Inv t → Inv (worker_round env r t).0.0
unfolding worker_round
worker_round-Inv env timeout t v = cancel-Inv env.raw t v
worker_round-Inv env (datagram m len addr) t v = on_receive-Inv _ m len addr t v

-- After any messages and time-outs the loop of `HandleIncomingMessages` leaves the invariant, if it
-- held before.
worker-Inv : (rs : List (Env × Received)) (t : ClientTransaction) → Inv t → Inv (worker rs t).0
unfolding worker
worker-Inv [] t v = v
worker-Inv ((env, r) ∷ rs) t v = ground (
  arith,
  worker_round-Inv env r t v,
  worker-Inv rs (worker_round env r t).0.0 (worker_round-Inv env r t v),
)
