-- ===== src/Transfer/Small.antt =====
-- A file that is shorter than one packet.
use trftp.Base.{
  ℕ, ◌+◌, ◌-◌, ◌%◌, ◌<◌, ◌≡◌, refl, sym, ap, ◌∙◌, arith, true, false, not, ◌&&◌, List, ◌==◌, length,
  length-take,
}
use trftp.Message.{cxl, TrftpMessage, TrftpHeader, payload_size, header_size}
use trftp.Wire.{received}
use trftp.Integrity.{validate_message_integrity}
use trftp.ServerTransaction.{Address, ServerTransaction}
use trftp.ServerTransaction.Sender.{data_packet}
use trftp.ServerTransaction.Sender.Run.{IsReady, chunk, packet_bytes, packet_full}
use trftp.ServerTransaction.Header.{data_packet-validate}
use trftp.ClientTransaction.{
  ClientTransaction, Env, on_receive, on_data, data_expected, send_message,
}
use trftp.Transfer.Data.{HasReceived}
use trftp.Transfer.Packet.{on_receive-data, packet_xid, packet_psn, packet_size}

part_packet :
    (tpn size : ℕ)
    → (0 < size) × (size < payload_size)
    → not (0 + 1 == tpn && size % payload_size == 0) ≡ true
part_packet tpn size h = ground arith

small_valid :
    (stale raw : TrftpMessage) (s : ServerTransaction) (c : List ℕ)
    → IsReady s c
    → length c < payload_size
    → let d = data_packet s raw 0 (chunk c 0) in
      validate_message_integrity (received stale d) d.len ≡ true
small_valid stale raw s c r h =
    let below : 0 < s.total_packet_number = omega (arith, r) in
    data_packet-validate stale raw s 0 (chunk c 0) r.nonempty (omega (arith, r)) (ground (arith, r))
      below (sym (ap length (packet_bytes s c r 0 below)) ∙ packet_full s c r 0 below)
    ∙ part_packet s.total_packet_number s.new_file_size (r.nonempty, omega (arith, r, h))

small_expected :
    (h : TrftpHeader) (n : ℕ) (t : ClientTransaction)
    → h.psn ≡ 0
    → n < payload_size
    → data_expected h n t ≡ false
small_expected h n t e lt = ground arith

on_data-refused :
    (env : Env) (h : TrftpHeader) (p : List ℕ) (n : ℕ) (t : ClientTransaction)
    → data_expected h n t ≡ false
    → (on_data env h p n t).0.status ≡ cxl
unfolding on_data send_message
on_data-refused env h p n t e = rw (e, on_data) refl

-- The server sends a file of less than 1408 bytes as one packet with the number 0. A client that is
-- ready for the file receives this packet intact and cancels the transfer.
pub small_file_refused :
    (env : Env) (stale raw : TrftpMessage) (addr : Address) (s : ServerTransaction) (c : List ℕ)
    (t : ClientTransaction)
    → IsReady s c
    → length c < payload_size
    → HasReceived c 0 t
    → let d = data_packet s raw 0 (chunk c 0) in
      (validate_message_integrity (received stale d) d.len ≡ true)
      × (s.total_packet_number ≡ 1)
      × ((on_receive env (received stale d) d.len addr t).0.status ≡ cxl)
small_file_refused env stale raw addr s c t r h v =
    let d = data_packet s raw 0 (chunk c 0) in
    let m = received stale d in
    let valid = small_valid stale raw s c r h in
    let small : d.len - header_size < payload_size =
      omega (arith, packet_size s raw stale 0 (chunk c 0), length-take payload_size c, h) in
    (
      valid,
      omega (arith, r, h),
      ap (λ x. x.0.status)
            (on_receive-data env m d.len addr t valid (packet_xid s raw stale 0 (chunk c 0)))
          ∙ on_data-refused env m.header m.payload (d.len - header_size)
              (record t { server_address = addr })
              (small_expected m.header (d.len - header_size) (record t { server_address = addr })
                (packet_psn s raw stale 0 (chunk c 0)) small),
    )
