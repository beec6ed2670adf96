-- ===== src/ClientTransaction/Delivery.antt =====
-- The call of `Client::OnFileReceived`: when it is made, and what the file is then.
use trftp.Base.{
  ℕ, ◌+◌, ◌-◌, ◌≡◌, refl, ◌∙◌, arith, inl, inr, Bool, true, false, not, ◌||◌, List, [], ◌∷◌, ◌++◌,
  ◌==◌, if◌then◌else◌, Bool-cases, take, u32,
}
use trftp.Message.{
  MessageId, ntf, chk, info, cxl, data', rtx, done, fin, TrftpMessage, TrftpHeader, header_size,
  message_id,
}
use trftp.ServerTransaction.{Address}
use trftp.ClientTransaction.{
  ClientTransaction, Env, Effect, sends, joins_thread, starts_thread, terminates, file_received,
  Result, send_message, on_ntf, on_info, accept_info, on_data, accept_data, complete_file, on_fin,
  on_cxl, dispatch, on_receive, after, append_file, data_expected, Received, timeout, datagram,
  worker, worker_round,
}
use trftp.ClientTransaction.Invariant.{Inv, Verified, worker_round-Inv}

-- Whether the handler is called.
abbrev pub delivers : List Effect → Bool
delivers [] = false
delivers (file_received v ∷ es) = true
delivers (_ ∷ es) = delivers es

-- A handler that delivers turns DONE into FIN, ends the transfer and leaves the file alone.
pub record Delivered (t u : ClientTransaction) : Type 0 where
  pub was_done : t.status ≡ done
  pub is_fin : u.status ≡ fin
  pub ended : u.is_active ≡ false
  pub same_stream : u.stream_open ≡ t.stream_open
  pub same_file : u.new_file ≡ t.new_file
  pub same_size : u.new_file_size ≡ t.new_file_size
  pub same_crc : u.new_file_crc32 ≡ t.new_file_crc32

send_message-silent :
    (id : MessageId) (raw : TrftpMessage) (t : ClientTransaction)
    → delivers (send_message id raw t).1 ≡ false
unfolding send_message
send_message-silent chk raw t = refl
send_message-silent _ raw t = refl

on_ntf-silent :
    (env : Env) (p : List ℕ) (n : ℕ) (t : ClientTransaction) → delivers (on_ntf env p n t).1 ≡ false
unfolding on_ntf send_message
on_ntf-silent env p n t = ground arith

on_info-silent :
    (env : Env) (p : List ℕ) (n : ℕ) (t : ClientTransaction)
    → delivers (on_info env p n t).1 ≡ false
unfolding on_info accept_info send_message
on_info-silent env p n t = ground arith

complete_file-silent :
    (env : Env) (t : ClientTransaction) → delivers (complete_file env t).1 ≡ false
unfolding complete_file send_message
complete_file-silent env t = ground arith

accept_data-silent :
    (env : Env) (p : List ℕ) (n : ℕ) (t : ClientTransaction)
    → delivers (accept_data env p n t).1 ≡ false
unfolding accept_data
accept_data-silent env p n t =
    let t' = record t {
      new_file = append_file t.new_file (take n p);
      status = data';
      packet_sequence_number = u32 (t.packet_sequence_number + 1);
    } in
    ground (arith, complete_file-silent env t', send_message-silent cxl env.raw t)

on_data-silent :
    (env : Env) (h : TrftpHeader) (p : List ℕ) (n : ℕ) (t : ClientTransaction)
    → delivers (on_data env h p n t).1 ≡ false
unfolding on_data
on_data-silent env h p n t = elim (Bool-cases (data_expected h n t)) [
  | inr bad ↦ rw (bad, on_data) (send_message-silent cxl env.raw t)
  | inl good ↦
      rw (good, on_data)
        (elim (Bool-cases (h.psn == t.packet_sequence_number)) [
          | inr gap ↦ rw gap (send_message-silent rtx env.raw t)
          | inl next ↦ rw next (accept_data-silent env p n t)
        ])
]

on_fin-Delivered :
    (env : Env) (n : ℕ) (t : ClientTransaction)
    → delivers (on_fin env n t).1 ≡ true
    → Delivered t (on_fin env n t).0
unfolding on_fin send_message
on_fin-Delivered env n t h = ground arith

dispatch-Delivered :
    (id : MessageId) (env : Env) (m : TrftpMessage) (n : ℕ) (t : ClientTransaction)
    → delivers (dispatch id env m n t).1 ≡ true
    → Delivered t (dispatch id env m n t).0
unfolding dispatch
dispatch-Delivered ntf env m n t h = absurd (cc (on_ntf-silent env m.payload n t))
dispatch-Delivered info env m n t h = absurd (cc (on_info-silent env m.payload n t))
dispatch-Delivered data' env m n t h = absurd (cc (on_data-silent env m.header m.payload n t))
dispatch-Delivered fin env m n t h = on_fin-Delivered env n t h
dispatch-Delivered cxl env m n t h = absurd (unfold on_cxl send_message in cc)
dispatch-Delivered _ env m n t h = cc

pub on_receive-Delivered :
    (env : Env) (m : TrftpMessage) (len : ℕ) (addr : Address) (t : ClientTransaction)
    → delivers (on_receive env m len addr t).1 ≡ true
    → Delivered t (on_receive env m len addr t).0
unfolding on_receive
on_receive-Delivered env m len addr t h = ground (
  arith,
  dispatch-Delivered (message_id m.header.xid) env m (len - header_size)
      (record t { server_address = addr }),
)

pub delivers-append : (es fs : List Effect) → delivers (es ++ fs) ≡ (delivers es || delivers fs)
delivers-append [] fs = refl
delivers-append (file_received v ∷ es) fs = refl
delivers-append (sends d ∷ es) fs = delivers-append es fs
delivers-append (joins_thread ∷ es) fs = delivers-append es fs
delivers-append (starts_thread ∷ es) fs = delivers-append es fs
delivers-append (terminates ∷ es) fs = delivers-append es fs

pub Delivered-Verified :
    {t u : ClientTransaction} → Inv t → Delivered t u → (u.status ≡ fin) × Verified u
Delivered-Verified v d =
    let (closed, size, crc) = v.verified d.was_done in
    (
      d.is_fin,
      (
        d.same_stream ∙ closed,
        rw (d.same_file, d.same_size) size,
        rw (d.same_file, d.same_crc) crc,
      ),
    )

pub worker_round-Delivered :
    (env : Env) (r : Received) (t : ClientTransaction)
    → delivers (worker_round env r t).0.1 ≡ true
    → Delivered t (worker_round env r t).0.0 × ((worker_round env r t).1 ≡ false)
unfolding worker_round
worker_round-Delivered env timeout t h = absurd (cc (send_message-silent cxl env.raw t))
worker_round-Delivered env (datagram m len addr) t h =
    let d = on_receive-Delivered (record env { on_thread = true }) m len addr t h in
    (d, rw d.ended refl)

abbrev Ends : Result → Type 0
Ends r = delivers r.1 ≡ true → (r.0.status ≡ fin) × Verified r.0

after-Ends : (es : List Effect) (r : Result) → delivers es ≡ false → Ends r → Ends (after es r)
after-Ends es r silent e h = e (ground (arith, delivers-append es r.1))

round_silent :
    (env : Env) (r : Received) (t : ClientTransaction)
    → (worker_round env r t).1 ≡ true
    → delivers (worker_round env r t).0.1 ≡ false
round_silent env r t more = elim (Bool-cases (delivers (worker_round env r t).0.1)) [
  | inl h ↦ absurd (cc (more, (worker_round-Delivered env r t h).1))
  | inr silent ↦ silent
]

if-Ends :
    (b : Bool) (x y : Result)
    → (b ≡ true → Ends x)
    → (b ≡ false → Ends y)
    → Ends (if b then x else y)
if-Ends true x y f g = f refl
if-Ends false x y f g = g refl

worker-Ends : (rs : List (Env × Received)) (t : ClientTransaction) → Inv t → Ends (worker rs t)
unfolding worker
worker-Ends [] t v = λ h. cc
worker-Ends ((env, r) ∷ rs) t v =
    let u = (worker_round env r t).0 in
    let more = (worker_round env r t).1 in
    let rest = after u.1 (worker rs u.0) in
    if-Ends (not t.is_active) (t, []) (if more then rest else u) (λ _ h. cc)
      λ _.
        if-Ends more rest u
          (λ e.
            after-Ends u.1 (worker rs u.0) (round_silent env r t e)
              (worker-Ends rs u.0 (worker_round-Inv env r t v)))
          (λ _ h. Delivered-Verified v (worker_round-Delivered env r t h).0)

-- The application gets a file only at the end of a verified transfer: if the receive loop calls the
-- handler, the transfer ends in FIN, and the file is closed and has the announced length and CRC.
pub worker-delivers-Verified :
    (rs : List (Env × Received)) (t : ClientTransaction)
    → Inv t
    → delivers (worker rs t).1 ≡ true
    → ((worker rs t).0.status ≡ fin) × Verified (worker rs t).0
worker-delivers-Verified rs t v h = worker-Ends rs t v h
