-- ===== src/Transfer/Session/Controls.antt =====
-- The control messages of a session: what the receiver's handler makes of each.
use trftp.Base.{ℕ, ◌+◌, ◌-◌, ◌<◌, ◌≡◌, ap, arith, true, List, ◌++◌, length, drop, take-append_exact}
use trftp.Message.{MessageId, TrftpMessage, payload_size, header_size, message_id, overlay}
use trftp.Message.Codec.{IsKnown, message_id-xid}
use trftp.Integrity.{validate_message_integrity}
use trftp.Wire.{received}
use trftp.ServerTransaction.{Address, Datagram, ServerTransaction, complete_header, sent}
use trftp.ServerTransaction
use trftp.ServerTransaction.Header.{send_payload-Arrives}
use trftp.ClientTransaction.{ClientTransaction, Env, Effect, Result}
use trftp.ClientTransaction

-- The datagram of a control message of the server.
abbrev pub command : MessageId → List ℕ → TrftpMessage → ServerTransaction → Datagram
command id bytes raw t = record {
  msg = complete_header t (record raw { payload = overlay bytes raw.payload }) id (length bytes) 0;
  len = header_size + length bytes;
  dest = t.client_address;
}

module _ (stale : TrftpMessage) (id : MessageId) (bytes : List ℕ) (raw : TrftpMessage)
    (t : ServerTransaction) where
  command-validate :
      length bytes < payload_size
      → let d = command id bytes raw t in validate_message_integrity (received stale d) d.len ≡ true
  unfolding ServerTransaction.send_payload
  command-validate h = (send_payload-Arrives stale id bytes raw t h).0

  pub command-id : IsKnown id → message_id (received stale (command id bytes raw t)).header.xid ≡ id
  unfolding complete_header
  command-id k = message_id-xid id k

  pub command-payload :
      (received stale (command id bytes raw t)).payload ≡ bytes ++ drop (length bytes) stale.payload
  unfolding complete_header
  command-payload =
      ap (λ b. overlay b stale.payload)
        (take-append_exact (header_size + length bytes - header_size) bytes
          (drop (length bytes) raw.payload) (omega arith))

-- The client's handler at a control message of the server.
pub on_receive-command :
    (env : Env) (stale : TrftpMessage) (id : MessageId) (bytes : List ℕ) (raw : TrftpMessage)
    (t : ServerTransaction) (addr : Address) (u : ClientTransaction)
    → IsKnown id
    → length bytes < payload_size
    → let d = command id bytes raw t in
      ClientTransaction.on_receive env (received stale d) d.len addr u
      ≡ ClientTransaction.dispatch id env
          (received stale d)
          (length bytes)
          (record u { server_address = addr })
unfolding ClientTransaction.on_receive
on_receive-command env stale id bytes raw t addr u k h =
    let d = command id bytes raw t in
    rw (command-validate stale id bytes raw t h, command-id stale id bytes raw t k)
      (ap
        (λ n.
          ClientTransaction.dispatch id env (received stale d) n
            (record u { server_address = addr }))
        (omega arith))
