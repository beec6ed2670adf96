-- ===== src/Transfer/Packet.antt =====
-- One DATA packet, from the server's thread into the client's file.
use mathlib.Core.Path.{ap₂}
use trftp.Base.{
  ℕ, suc, ◌+◌, ◌*◌, ◌-◌, ◌<◌, ◌≡◌, refl, sym, ap, ◌∙◌, arith, true, false, not, ◌&&◌, some, List,
  [], ◌==◌, length, take, take-append_exact, take-append-take-drop, take_all, u32, u32_max, subst,
  if◌then◌else◌, eq→==, ne→==, if-true, if-false,
}
use trftp.Message.{TrftpHeader, data', done, TrftpMessage, payload_size, header_size, message_id}
use trftp.Crc.{calculate_file_crc32}
use trftp.Wire.{received}
use trftp.Integrity.{validate_message_integrity}
use trftp.ServerTransaction.{Address, ServerTransaction, complete_header}
use trftp.ServerTransaction.Sender.{data_packet}
use trftp.ServerTransaction.Sender.Run.{IsReady, chunk}
use trftp.ServerTransaction.Threads.Packets.{data_packet-payload}
use trftp.ClientTransaction.{
  ClientTransaction, Env, on_receive, dispatch, on_data, accept_data, complete_file, append_file,
  send_message, data_expected,
}
use trftp.Transfer.Data.{HasReceived, IsCarried, packet-arrives, data_expected-packet}

pub on_receive-data :
    (env : Env) (m : TrftpMessage) (len : ℕ) (addr : Address) (t : ClientTransaction)
    → validate_message_integrity m len ≡ true
    → message_id m.header.xid ≡ data'
    → on_receive env m len addr t
      ≡ on_data env m.header m.payload (len - header_size) (record t { server_address = addr })
unfolding on_receive dispatch
on_receive-data env m len addr t ok id = rw (ok, id, on_receive) refl

on_data-next :
    (env : Env) (h : TrftpHeader) (p : List ℕ) (n : ℕ) (t : ClientTransaction)
    → data_expected h n t ≡ true
    → h.psn ≡ t.packet_sequence_number
    → on_data env h p n t ≡ accept_data env p n t
unfolding on_data
on_data-next env h p n t ok e = rw (ok, on_data, eq→== h.psn t.packet_sequence_number e) refl

-- What the client stores next.
abbrev pub stored_next : List ℕ → ℕ → Address → ClientTransaction → ClientTransaction
stored_next c k addr t = record t {
  server_address = addr;
  new_file = some (take (suc k * payload_size) c);
  status = data';
  packet_sequence_number = suc k;
}

accept_data-stored :
    (env : Env) (p : List ℕ) (n : ℕ) (t u : ClientTransaction)
    → t.stream_open ≡ true
    → env.write_ok ≡ true
    → record t {
      new_file = append_file t.new_file (take n p);
      status = data';
      packet_sequence_number = u32 (t.packet_sequence_number + 1);
    }
      ≡ u
    → accept_data env p n t
      ≡ (if u.packet_sequence_number == u.total_packet_number then complete_file env u else (u, []))
unfolding accept_data
accept_data-stored env p n t u o w e =
    if-false _ _ (ap not (ap₂ ◌&&◌ o w))
    ∙ ap
        (λ x.
          if x.packet_sequence_number == x.total_packet_number
          then complete_file env x
          else (x, []))
        e

next_bytes :
    (c p : List ℕ) (k n : ℕ) (t : ClientTransaction)
    → t.new_file ≡ some (take (k * payload_size) c)
    → take n p ≡ chunk c k
    → append_file t.new_file (take n p) ≡ some (take (suc k * payload_size) c)
next_bytes c p k n t e q =
    ap₂ append_file e q
    ∙ ap some
        (take-append-take-drop (k * payload_size) payload_size c ∙ ap (λ j. take j c) (omega arith))

accept_data-next :
    (env : Env) (c p : List ℕ) (k n : ℕ) (addr : Address) (t : ClientTransaction)
    → HasReceived c k t
    → k < u32_max
    → env.write_ok ≡ true
    → take n p ≡ chunk c k
    → accept_data env p n (record t { server_address = addr }) ≡ (
        if suc k == t.total_packet_number
        then complete_file env (stored_next c k addr t)
        else (stored_next c k addr t, []))
accept_data-next env c p k n addr t v h w e =
    let bytes = next_bytes c p k n t v.stored e in
    let psn : u32 (t.packet_sequence_number + 1) ≡ suc k = omega (arith, v) in
    accept_data-stored env p n (record t { server_address = addr }) (stored_next c k addr t)
      v.open_stream w
      λ i. record t {
        server_address = addr;
        new_file = bytes i;
        status = data';
        packet_sequence_number = psn i;
      }

-- The parts of a DATA datagram that the client reads.
module _ (s : ServerTransaction) (raw stale : TrftpMessage) (k : ℕ) (bytes : List ℕ) where
  pub packet_xid : message_id (received stale (data_packet s raw k bytes)).header.xid ≡ data'
  unfolding data_packet complete_header message_id
  packet_xid = refl

  pub packet_psn : (received stale (data_packet s raw k bytes)).header.psn ≡ k
  unfolding data_packet complete_header
  packet_psn = refl

  pub packet_size : (data_packet s raw k bytes).len - header_size ≡ length bytes
  unfolding data_packet
  packet_size = omega arith

  packet_payload :
      let d = data_packet s raw k bytes in
      take (d.len - header_size) (received stale d).payload ≡ bytes
  packet_payload =
      let d = data_packet s raw k bytes in
      let n = d.len - header_size in
      let whole = data_packet-payload s raw k bytes in
      take-append_exact n (take n d.msg.payload) _ (packet_size ∙ sym (ap length whole)) ∙ whole

-- One more packet of the file.
module _ (s : ServerTransaction) (c : List ℕ) (r : IsReady s c) (f : IsCarried c) where
  receive_packet :
      (env : Env) (stale raw : TrftpMessage) (addr : Address) (k : ℕ) (t : ClientTransaction)
      → k < s.total_packet_number
      → env.write_ok ≡ true
      → HasReceived c k t
      → let d = data_packet s raw k (chunk c k) in
        on_receive env (received stale d) d.len addr t ≡ (
          if suc k == t.total_packet_number
          then complete_file env (stored_next c k addr t)
          else (stored_next c k addr t, []))
  receive_packet env stale raw addr k t h w v =
      let d = data_packet s raw k (chunk c k) in
      let m = received stale d in
      on_receive-data env m d.len addr t (packet-arrives s c r f stale raw k h)
        (packet_xid s raw stale k (chunk c k))
      ∙ on_data-next env m.header m.payload (d.len - header_size) _
          (subst (λ n. data_expected m.header n t ≡ true)
            (sym (packet_size s raw stale k (chunk c k)))
            (data_expected-packet s c r f t stale raw k h v.state v.announced))
          (packet_psn s raw stale k (chunk c k) ∙ sym v.counted)
      ∙ accept_data-next env c m.payload k (d.len - header_size) addr t v (omega (arith, r)) w
          (packet_payload s raw stale k (chunk c k))

  pub next-HasReceived :
      (addr : Address) (k : ℕ) (t : ClientTransaction)
      → HasReceived c k t
      → HasReceived c (suc k) (stored_next c k addr t)
  next-HasReceived addr k t v = record {
    state = rw (ne→== (suc k) 0 (omega arith)) refl;
    counted = refl;
    expects = v.expects;
    announced = v.announced;
    checksum = v.checksum;
    open_stream = v.open_stream;
    stored = refl;
  }

  complete-HasFile :
      (env : Env) (addr : Address) (k : ℕ) (t : ClientTransaction)
      → HasReceived c k t
      → suc k ≡ s.total_packet_number
      → complete_file env (stored_next c k addr t)
        ≡ send_message done env.raw (record (stored_next c k addr t) { stream_open = false })
  unfolding complete_file
  complete-HasFile env addr k t v e =
      let whole : take (suc k * payload_size) c ≡ c = take_all _ c (omega (arith, r)) in
      if-false _ _ (ap not (eq→== _ _ (v.announced ∙ sym (ap length whole))))
      ∙ if-false _ _
          (ap not (eq→== _ _ (v.checksum ∙ ap (λ x. calculate_file_crc32 (some x)) (sym whole))))

  count_eq :
      (k : ℕ) (t : ClientTransaction)
      → HasReceived c k t
      → t.total_packet_number ≡ s.total_packet_number
  count_eq k t v = omega (arith, v, r)

  pub packet-middle :
      (env : Env) (stale raw : TrftpMessage) (addr : Address) (k : ℕ) (t : ClientTransaction)
      → suc k < s.total_packet_number
      → env.write_ok ≡ true
      → HasReceived c k t
      → let d = data_packet s raw k (chunk c k) in
        on_receive env (received stale d) d.len addr t ≡ (stored_next c k addr t, [])
  packet-middle env stale raw addr k t h w v =
      receive_packet env stale raw addr k t (omega arith) w v
      ∙ if-false _ _ (ne→== (suc k) t.total_packet_number (omega (arith, count_eq k t v)))

  pub packet-last :
      (env : Env) (stale raw : TrftpMessage) (addr : Address) (k : ℕ) (t : ClientTransaction)
      → suc k ≡ s.total_packet_number
      → env.write_ok ≡ true
      → HasReceived c k t
      → let d = data_packet s raw k (chunk c k) in
        on_receive env (received stale d) d.len addr t
        ≡ send_message done env.raw (record (stored_next c k addr t) { stream_open = false })
  packet-last env stale raw addr k t h w v =
      receive_packet env stale raw addr k t (omega arith) w v
      ∙ if-true _ _ (eq→== (suc k) t.total_packet_number (omega (arith, count_eq k t v)))
      ∙ complete-HasFile env addr k t v h
