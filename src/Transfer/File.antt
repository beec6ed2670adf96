-- ===== src/Transfer/File.antt =====
-- The DATA packets of a whole file, received in order.
use mathlib.Core.Path.{ap₂}
use trftp.Base.{
  ℕ, zero, suc, ◌*◌, ◌-◌, ◌<◌, ◌≡◌, refl, sym, ap, ◌∙◌, arith, true, false, some, List, [], length,
  take_all, subst, ◌≤◌, if-true, if◌then◌else◌,
}
use trftp.Message.{done, TrftpMessage, payload_size}
use trftp.Crc.{calculate_file_crc32}
use trftp.ServerTransaction.{Address, ServerTransaction}
use trftp.ServerTransaction.Sender.Run.{IsReady, chunk, packets}
use trftp.ClientTransaction.{ClientTransaction, Env, Result, send_message, on_receive, after}
use trftp.ServerTransaction.Sender.{data_packet}
use trftp.Wire.{received}
use trftp.Transfer.{receive_all, receive_alive}
use trftp.Transfer.Data.{HasReceived, IsCarried}
use trftp.Transfer.Packet.{stored_next, next-HasReceived, packet-middle, packet-last}

-- What a client has after the first k packets: no reply was sent.
pub record Progress (c : List ℕ) (k : ℕ) (t : ClientTransaction) (u : Result) : Type 0 where
  pub has : HasReceived c k u.0
  pub silent : u.1 ≡ []
  pub version : u.0.new_file_version ≡ t.new_file_version
  pub client : u.0.has_client ≡ t.has_client
  pub alive : u.0.is_active ≡ t.is_active

-- What a client reports when it has the whole file.
pub record Reports (c : List ℕ) (t u : ClientTransaction) : Type 0 where
  pub stored : u.new_file ≡ some c
  pub closed : u.stream_open ≡ false
  pub version : u.new_file_version ≡ t.new_file_version
  pub client : u.has_client ≡ t.has_client
  pub alive : u.is_active ≡ t.is_active
  pub size : u.new_file_size ≡ length c
  pub checksum : u.new_file_crc32 ≡ calculate_file_crc32 (some c)

module _ (s : ServerTransaction) (c : List ℕ) (r : IsReady s c) (f : IsCarried c) (envs : ℕ → Env)
    (stales raws : ℕ → TrftpMessage) (addr : Address)
    (writable : (k : ℕ) → (envs k).write_ok ≡ true) where
  length-packets : (k : ℕ) → length (packets s raws c k) ≡ k
  length-packets zero = refl
  length-packets (suc k) = ap suc (length-packets k)

  receive-first :
      (k : ℕ) (t : ClientTransaction)
      → k < s.total_packet_number
      → HasReceived c 0 t
      → Progress c k t (receive_all envs stales addr (packets s raws c k) t)
  unfolding receive_all
  receive-first zero t h v = record {
    has = v;
    silent = refl;
    version = refl;
    client = refl;
    alive = refl;
  }
  receive-first (suc k) t h v =
      let before = receive-first k t (omega arith) v in
      let u = receive_all envs stales addr (packets s raws c k) t in
      let j = length (packets s raws c k) in
      subst (λ x. Progress c (suc k) t (after u.1 x))
        (sym
          (packet-middle s c r f (envs j) (stales j) (raws k) addr k u.0 h (writable j) before.has))
        (record {
          has = next-HasReceived s c r f addr k u.0 before.has;
          silent = rw before.silent refl;
          version = before.version;
          client = before.client;
          alive = before.alive;
        })

  -- The receiving thread handles every packet.
  pub receive_alive-all :
      (k : ℕ) (t : ClientTransaction)
      → k ≤ s.total_packet_number
      → HasReceived c 0 t
      → t.is_active ≡ true
      → receive_alive envs stales addr (packets s raws c k) t
        ≡ receive_all envs stales addr (packets s raws c k) t
  unfolding receive_alive receive_all
  receive_alive-all zero t h v alive = refl
  receive_alive-all (suc k) t h v alive =
      let ds = packets s raws c k in
      let n = length ds in
      let d = data_packet s (raws k) k (chunk c k) in
      ap
        (λ (x : Result).
          if x.0.is_active
          then after x.1 (on_receive (envs n) (received (stales n) d) d.len addr x.0)
          else x)
        (receive_alive-all k t (omega arith) v alive)
      ∙ if-true _ _ ((receive-first k t (omega arith) v).alive ∙ alive)

  -- The client's state when it reports, packet k being the last.
  abbrev reporting : ℕ → ClientTransaction → ClientTransaction
  reporting k t =
      record (stored_next c k addr (receive_all envs stales addr (packets s raws c k) t).0) {
        stream_open = false;
      }

  receive-last :
      (k : ℕ) (t : ClientTransaction)
      → suc k ≡ s.total_packet_number
      → HasReceived c 0 t
      → receive_all envs stales addr (packets s raws c (suc k)) t
        ≡ send_message done (envs k).raw (reporting k t)
  unfolding receive_all
  receive-last k t h v =
      let before = receive-first k t (omega arith) v in
      let u = receive_all envs stales addr (packets s raws c k) t in
      let j = length (packets s raws c k) in
      ap₂ after before.silent (
        packet-last s c r f (envs j) (stales j) (raws k) addr k u.0 h (writable j) before.has
        ∙ ap (λ i. send_message done (envs i).raw (reporting k t)) (length-packets k))

  reporting-Reports :
      (k : ℕ) (t : ClientTransaction)
      → suc k ≡ s.total_packet_number
      → HasReceived c 0 t
      → Reports c t (reporting k t)
  reporting-Reports k t h v =
      let before = receive-first k t (omega arith) v in
      record {
        stored = ap some (take_all (suc k * payload_size) c (omega (arith, r)));
        closed = refl;
        version = before.version;
        client = before.client;
        alive = before.alive;
        size = before.has.announced;
        checksum = before.has.checksum;
      }

  -- The whole file, in order, makes the client report it.
  pub receive-whole :
      (t : ClientTransaction)
      → HasReceived c 0 t
      → (u : ClientTransaction) × (receive_all envs stales addr
            (packets s raws c s.total_packet_number)
            t
          ≡ send_message done (envs (s.total_packet_number - 1)).raw u)
        × Reports c t u
  receive-whole t v =
      let k = s.total_packet_number - 1 in
      let e : suc k ≡ s.total_packet_number = omega (arith, r) in
      (
        reporting k t,
        subst
            (λ n.
              receive_all envs stales addr (packets s raws c n) t
              ≡ send_message done (envs k).raw (reporting k t))
            e (receive-last k t e v),
        reporting-Reports k t e v,
      )
