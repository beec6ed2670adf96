-- ===== src/Transfer/Receiver/Steps.antt =====
-- One packet of a file at `ClientTransaction::OnReceive`, against the abstract receiver.
use trftp.Base.{
  ℕ, suc, ◌-◌, ◌<◌, ◌≡◌, ◌≢◌, refl, sym, ap, ◌∙◌, arith, true, false, ◌||◌, some, List, [], ◌∷◌,
  ◌==◌, take_all, subst, if◌then◌else◌, ne→==, ==_iff, Bool-cases, inl, inr, if-false,
}
use trftp.Message.{rdy, data', rtx, done, same, TrftpMessage, header_size}
use trftp.Wire.{received}
use trftp.ServerTransaction.{Address, ServerTransaction}
use trftp.ServerTransaction.Sender.{data_packet}
use trftp.ServerTransaction.Sender.Run.{IsReady, chunk}
use trftp.ClientTransaction.{ClientTransaction, Result, on_data, data_expected, send_message}
use trftp.Transfer.Data.{HasReceived, IsCarried, packet-arrives, data_expected-packet}
use trftp.Transfer.Packet.{
  stored_next, next-HasReceived, packet-middle, packet-last, on_receive-data, packet_xid,
  packet_psn, packet_size,
}
use trftp.Transfer.Receiver.{
  Arrival, receive_one, View, holding, complete, cancelled, requests, reports, cancels, take_packet,
  Shows, has, has_all, gave_up, done_reply, request_reply, Refines, cancel-Refines, unexpected,
  on_data-refused, on_data-gap,
}

module _ (s : ServerTransaction) (c : List ℕ) (r : IsReady s c) (f : IsCarried c) where
  abbrev handled : Arrival → ClientTransaction → Result
  handled a t =
      let d = data_packet s a.raw a.psn (chunk c a.psn) in
      let m = received a.stale d in
      on_data a.env m.header m.payload (d.len - header_size) (record t { server_address = a.addr })

  receive_one-handled :
      (a : Arrival) (t : ClientTransaction)
      → a.psn < s.total_packet_number
      → receive_one s c a t ≡ handled a t
  receive_one-handled a t h =
      let d = data_packet s a.raw a.psn (chunk c a.psn) in
      on_receive-data a.env (received a.stale d) d.len a.addr t
        (packet-arrives s c r f a.stale a.raw a.psn h)
        (packet_xid s a.raw a.stale a.psn (chunk c a.psn))

  -- A packet for which the status is wrong.
  refused-Refines :
      (a : Arrival) (t : ClientTransaction)
      → a.psn < s.total_packet_number
      → (if a.psn == 0 then same t.status rdy else same t.status data') ≡ false
      → Refines c s.total_packet_number (receive_one s c a t) (cancelled, cancels ∷ [])
  refused-Refines a t h e =
      let d = data_packet s a.raw a.psn (chunk c a.psn) in
      let m = received a.stale d in
      let t' = record t { server_address = a.addr } in
      let psn = packet_psn s a.raw a.stale a.psn (chunk c a.psn) in
      let refused = on_data-refused a.env m.header m.payload (d.len - header_size) t' (
        unexpected m.header (d.len - header_size) t'
          (ap (λ k. if k == 0 then same t.status rdy else same t.status data') psn ∙ e)) in
      subst (λ (x : Result). Refines c s.total_packet_number x (cancelled, cancels ∷ []))
        (sym (receive_one-handled a t h ∙ refused))
        (cancel-Refines c s.total_packet_number a.env.raw t')

  request-Refines :
      (raw : TrftpMessage) (t : ClientTransaction) (k : ℕ)
      → k < s.total_packet_number
      → HasReceived c k t
      → Refines c s.total_packet_number (send_message rtx raw t) (holding k, requests k ∷ [])
  unfolding send_message
  request-Refines raw t k lt v =
      (has k lt v, request_reply raw t (omega (arith, v, r)) ∙ ap (λ n. requests n ∷ []) v.counted)

  -- The client's state behind a change of the server's address.
  pub readdressed :
      (addr : Address) (t : ClientTransaction) (k : ℕ)
      → HasReceived c k t
      → HasReceived c k (record t { server_address = addr })
  readdressed addr t k v = record {
    state = v.state;
    counted = v.counted;
    expects = v.expects;
    announced = v.announced;
    checksum = v.checksum;
    open_stream = v.open_stream;
    stored = v.stored;
  }

  -- A packet that is neither the next one nor the first is answered by a request.
  pub gap-handled :
      (a : Arrival) (t : ClientTransaction) (k : ℕ)
      → a.psn < s.total_packet_number
      → HasReceived c k t
      → a.psn ≢ k
      → a.psn ≢ 0
      → k ≢ 0
      → receive_one s c a t ≡ send_message rtx a.env.raw (record t { server_address = a.addr })
  gap-handled a t k h v ne j0 k0 =
      let d = data_packet s a.raw a.psn (chunk c a.psn) in
      let m = received a.stale d in
      let t' = record t { server_address = a.addr } in
      let state : t.status ≡ (if a.psn == 0 then rdy else data') =
        v.state ∙ if-false _ _ (ne→== k 0 k0) ∙ sym (if-false _ _ (ne→== a.psn 0 j0)) in
      let expected =
        subst (λ n. data_expected m.header n t' ≡ true)
          (sym (packet_size s a.raw a.stale a.psn (chunk c a.psn)))
          (data_expected-packet s c r f t' a.stale a.raw a.psn h state v.announced) in
      let differs : m.header.psn ≢ t'.packet_sequence_number =
        λ e. ne (sym (packet_psn s a.raw a.stale a.psn (chunk c a.psn)) ∙ e ∙ v.counted) in
      receive_one-handled a t h
      ∙ on_data-gap a.env m.header m.payload (d.len - header_size) t' expected differs

  gap-Refines :
      (a : Arrival) (t : ClientTransaction) (k : ℕ)
      → a.psn < s.total_packet_number
      → k < s.total_packet_number
      → HasReceived c k t
      → a.psn ≢ k
      → a.psn ≢ 0
      → k ≢ 0
      → Refines c s.total_packet_number (receive_one s c a t) (holding k, requests k ∷ [])
  gap-Refines a t k h lt v ne j0 k0 =
      subst (λ (x : Result). Refines c s.total_packet_number x (holding k, requests k ∷ []))
        (sym (gap-handled a t k h v ne j0 k0))
        (request-Refines a.env.raw (record t { server_address = a.addr }) k lt
          (readdressed a.addr t k v))

  complete-Refines :
      (raw : TrftpMessage) (t : ClientTransaction)
      → t.new_file ≡ some c
      → t.stream_open ≡ false
      → Refines c s.total_packet_number (send_message done raw t) (complete, reports ∷ [])
  unfolding send_message
  complete-Refines raw t e o = (has_all refl e o, done_reply raw t)

  -- The next packet.
  next-Refines :
      (a : Arrival) (t : ClientTransaction)
      → a.psn < s.total_packet_number
      → a.env.write_ok ≡ true
      → HasReceived c a.psn t
      → Refines c s.total_packet_number (receive_one s c a t) (
          if suc a.psn == s.total_packet_number
          then (complete, reports ∷ [])
          else (holding (suc a.psn), []))
  next-Refines a t h w v =
      let n = s.total_packet_number in
      elim (Bool-cases (suc a.psn == n)) [
        | inl last ↦
            let e = (==_iff (suc a.psn) n).0 last in
            let u = record (stored_next c a.psn a.addr t) { stream_open = false } in
            rw last (
              subst (λ (x : Result). Refines c n x (complete, reports ∷ []))
                (sym (packet-last s c r f a.env a.stale a.raw a.addr a.psn t e w v))
                (complete-Refines a.env.raw u (ap some (take_all _ c (omega (arith, r)))) refl))
        | inr middle ↦
            let lt : suc a.psn < n = ground (arith, h) in
            rw middle (
              subst (λ (x : Result). Refines c n x (holding (suc a.psn), []))
                (sym (packet-middle s c r f a.env a.stale a.raw a.addr a.psn t lt w v))
                (has (suc a.psn) lt (next-HasReceived s c r f a.addr a.psn t v), refl))
      ]

  -- At each packet of the file, whatever its number and whatever the client has, the handler does
  -- what the abstract receiver does, and replies what it replies.
  pub receive_one-Refines :
      (a : Arrival) (t : ClientTransaction) (v : View)
      → a.psn < s.total_packet_number
      → a.env.write_ok ≡ true
      → Shows c s.total_packet_number t v
      → Refines c s.total_packet_number
          (receive_one s c a t)
          (take_packet s.total_packet_number v a.psn)
  unfolding take_packet
  receive_one-Refines a t (holding k) h w (has _ lt v) = elim (Bool-cases (a.psn == k)) [
    | inl next ↦
        let e = (==_iff a.psn k).0 next in
        rw next (
          subst
            (λ j. Refines c s.total_packet_number (receive_one s c a t) (
              if suc j == s.total_packet_number
              then (complete, reports ∷ [])
              else (holding (suc j), [])))
            e (next-Refines a t h w (subst (λ j. HasReceived c j t) (sym e) v)))
    | inr other ↦ elim (Bool-cases (a.psn == 0 || k == 0)) [
      | inl first ↦ rw (other, first) (refused-Refines a t h (ground (arith, v)))
      | inr later ↦
          rw (other, later) (gap-Refines a t k h lt v (ground arith) (ground arith) (ground arith))
    ]
  ]
  receive_one-Refines a t complete h w (has_all d e o) = refused-Refines a t h (ground arith)
  receive_one-Refines a t cancelled h w (gave_up d e) = refused-Refines a t h (ground arith)
