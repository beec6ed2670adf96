-- ===== src/Transfer/Loss.antt =====
-- A lost packet, from the first packet behind it to the client's report.
use trftp.Base.{
  ℕ, ◌+◌, ◌-◌, ◌*◌, ◌<◌, ◌≤◌, ◌≡◌, sym, ap, ◌∙◌, arith, true, List, [], ◌∷◌, ◌++◌, drop, subst,
  u32_mod,
}
use trftp.Message.{TrftpMessage, data', rtx, u32_bytes, word_at}
use trftp.Message.Codec.{message_id-xid, word_at_first}
use trftp.Wire.{received}
use trftp.ServerTransaction.{Address, Disk, Datagram, ServerTransaction, on_receive, dispatch}
use trftp.ServerTransaction.Sender.{Sender, check, exited, run}
use trftp.ServerTransaction.Sender.Run.{IsReady}
use trftp.ServerTransaction.Sender.Run.Finish.{resends}
use trftp.ClientTransaction.{ClientTransaction, Env, Result, send_message}
use trftp.ClientTransaction.Sending.{control, control-validate, control-payload}
use trftp.Transfer.{receive_all}
use trftp.Transfer.Data.{HasReceived, IsCarried}
use trftp.Transfer.Receiver.{Arrival, receive_one, Refines, has, complete, reports}
use trftp.Transfer.Receiver.Steps.{readdressed, gap-handled}
use trftp.Transfer.Recovery.{request_repairs}
use trftp.Transfer.Session.{answers}

-- The server at a request of the client for packet k.
takes-rtx :
    (stale raw : TrftpMessage) (k : ℕ) (to from : Address) (t : ServerTransaction)
    → t.status ≡ data'
    → k < u32_mod
    → k ≤ t.packet_sequence_number
    → let d = control rtx (u32_bytes k) raw to in
      on_receive (received stale d) d.len from t
      ≡ record t { client_address = from; retransmit_psn = k }
unfolding on_receive
takes-rtx stale raw k to from t s small h =
    let d = control rtx (u32_bytes k) raw to in
    let word : word_at 0 (received stale d).payload ≡ k =
      ap (word_at 0) (control-payload stale rtx (u32_bytes k) raw to)
      ∙ word_at_first k (drop 4 stale.payload) small in
    rw (control-validate stale rtx (u32_bytes k) raw to, message_id-xid rtx tt, on_receive)
      (unfold dispatch in (ground arith))

-- The server's transaction with its address of the client changed.
abbrev pub at_address : ServerTransaction → Address → ServerTransaction
at_address s from = record s { client_address = from }

at_address-IsReady :
    (s : ServerTransaction) (c : List ℕ) (from : Address)
    → IsReady s c
    → IsReady (at_address s from) c
at_address-IsReady s c from r = record {
  sending = r.sending;
  no_request = r.no_request;
  size = r.size;
  count = r.count;
  nonempty = r.nonempty;
  small = r.small;
}

-- The sending thread at the top of its loop's body.
abbrev pub at_check : ServerTransaction → List ℕ → List Datagram → Sender
at_check t c ds = record { tran = t; ifs = c; pc = check; sends = ds }

module _ (s : ServerTransaction) (c : List ℕ) (r : IsReady s c) (f : IsCarried c) (a : Arrival)
    (k psn : ℕ) (t : ClientTransaction) (v : HasReceived c k t) (stale : TrftpMessage)
    (from : Address) where
  -- The server behind the client's answer to the packet.
  abbrev pub asked : ServerTransaction
  asked = answers stale from (receive_one s c a t).1 (record s { packet_sequence_number = psn })

  asked-eq :
      0 < k
      → k < a.psn
      → a.psn < s.total_packet_number
      → k ≤ psn
      → asked ≡ record (at_address s from) { packet_sequence_number = psn; retransmit_psn = k }
  unfolding answers send_message
  asked-eq h0 h1 h2 h3 =
      let t' = record t { server_address = a.addr } in
      let gap =
        gap-handled s c r f a t k h2 v (λ e. omega arith) (λ e. omega arith) (λ e. omega arith) in
      ap (λ (y : Result). answers stale from y.1 (record s { packet_sequence_number = psn })) gap
      ∙ ap
          (λ n.
            on_receive (received stale (control rtx (u32_bytes n) a.env.raw a.addr))
              (control rtx (u32_bytes n) a.env.raw a.addr).len from
              (record s { packet_sequence_number = psn }))
          v.counted
      ∙ takes-rtx stale a.env.raw k a.addr from (record s { packet_sequence_number = psn })
          r.sending (omega (arith, r)) h3

  -- A client has the first k packets of a file of two packets at least whose last one is not full, k
  -- being 1 at least, packet k is lost, and a later packet reaches it. The server, which has sent
  -- packet k, gets the client's answer to that, its sending thread standing at the top of its loop's
  -- body: the thread goes back, sends the packets from k on once more and nothing else, and ends. The
  -- client, its disk being writable, to which these come in order and nothing else, then has the
  -- whole file and has sent one reply to them, its report.
  pub loss_repaired :
      (disk : Disk) (envs : ℕ → Env) (stales raws : ℕ → TrftpMessage) (addr : Address)
      (ds : List Datagram)
      → 0 < k
      → k < a.psn
      → a.psn < s.total_packet_number
      → k ≤ psn
      → ((i : ℕ) → (envs i).write_ok ≡ true)
      → let n = s.total_packet_number in
        let again = resends (at_address s from) raws c [] k n in
        let w = run (5 * (n - k) + 1) disk raws (at_check asked c ds) in
        (w.pc ≡ exited)
        × (w.sends ≡ again ++ ds)
        × Refines c n
            (receive_all envs stales addr again (receive_one s c a t).0)
            (complete, reports ∷ [])
  unfolding send_message
  loss_repaired disk envs stales raws addr ds h0 h1 h2 h3 writable =
      let n = s.total_packet_number in
      let lt : k < n = omega arith in
      let gap =
        gap-handled s c r f a t k h2 v (λ e. omega arith) (λ e. omega arith) (λ e. omega arith) in
      let u = record t { server_address = a.addr } in
      let (ends, sent, whole) =
        request_repairs (at_address s from) c (at_address-IsReady s c from r) f envs stales raws
          addr writable k u (has k lt (readdressed s c r f a.addr t k v)) disk ds psn lt in
      let e = ap (λ z. run (5 * (n - k) + 1) disk raws (at_check z c ds)) (asked-eq h0 h1 h2 h3) in
      (
        ap (λ w. w.pc) e ∙ ends,
        ap (λ w. w.sends) e ∙ sent,
        subst
            (λ (y : Result).
              Refines c n
                (receive_all envs stales addr (resends (at_address s from) raws c [] k n) y.0)
                (complete, reports ∷ []))
            (sym gap) whole,
      )
