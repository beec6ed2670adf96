-- ===== src/Transfer/Done.antt =====
-- The end of a transfer: the server's thread sends the file, the client stores and checks it and
-- reports, and the server accepts the report.
use trftp.Base.{
  ℕ, ◌+◌, ◌*◌, ◌-◌, ◌<◌, ◌≡◌, refl, sym, ap, ◌∙◌, arith, true, some, List, [], ◌∷◌, ◌++◌, length,
  drop, u32_mod, subst,
}
use trftp.Message.{done, TrftpMessage, u32_bytes}
use trftp.Message.Codec.{message_id-xid}
use trftp.Crc.{calculate_file_crc32}
use trftp.Crc.File.{calculate_file_crc32-eq, calculate_crc32-lt}
use trftp.Wire.{received}
use trftp.ServerTransaction.{Address, Disk, Datagram, ServerTransaction, on_receive}
use trftp.ServerTransaction.Receive.{Finishes, on_receive-done_iff}
use trftp.ServerTransaction.Sender.{exited, run}
use trftp.ServerTransaction.Sender.Run.{IsReady, started, finished, packets}
use trftp.ServerTransaction.Sender.Run.Finish.{run-finished}
use trftp.ClientTransaction.{ClientTransaction, Env, sends, send_message, send_payload}
use trftp.ClientTransaction.Sending.{control, control-validate}
use trftp.Transfer.{receive_all}
use trftp.Transfer.Data.{HasReceived, IsCarried}
use trftp.Transfer.File.{Reports, receive-whole}

-- The three words of a DONE message.
abbrev pub done_bytes : ClientTransaction → List ℕ
done_bytes u =
    u32_bytes u.new_file_version ++ (u32_bytes u.new_file_size ++ u32_bytes u.new_file_crc32)

send_done :
    (raw : TrftpMessage) (u : ClientTransaction)
    → send_message done raw u
      ≡ (record u { status = done }, sends (control done (done_bytes u) raw u.server_address) ∷ [])
unfolding send_message send_payload
send_done raw u = refl

-- The server takes the report of a file that is its own, once its sender has counted past the end.
pub done-Finishes :
    (stale raw : TrftpMessage) (t : ServerTransaction) (u : ClientTransaction)
    → t.packet_sequence_number ≡ t.total_packet_number
    → (u.new_file_version ≡ t.new_file_version) × (t.new_file_version < u32_mod)
    → (u.new_file_size ≡ t.new_file_size) × (t.new_file_size < u32_mod)
    → (u.new_file_crc32 ≡ t.new_file_crc32) × (t.new_file_crc32 < u32_mod)
    → let d = control done (done_bytes u) raw u.server_address in
      Finishes (received stale d) d.len t
done-Finishes stale raw t u p ver size crc =
    let bytes = done_bytes u in
    let rest = drop (length bytes) stale.payload in
    let d = control done bytes raw u.server_address in
    record {
      valid = control-validate stale done bytes raw u.server_address;
      is_done = message_id-xid done tt;
      size = refl;
      all_sent = p;
      version_matches = omega (arith, ver);
      length_matches = omega (arith, size);
      crc_matches = omega (arith, crc);
    }

-- The client's report of the whole file, and that the server takes it.
pub report_taken :
    (raws stales : ℕ → TrftpMessage) (envs : ℕ → Env) (addr : Address) (s : ServerTransaction)
    (c : List ℕ) (t : ClientTransaction) (back : TrftpMessage) (from : Address)
    → ((k : ℕ) → (envs k).write_ok ≡ true)
    → IsReady s c
    → IsCarried c
    → s.new_file_crc32 ≡ calculate_file_crc32 (some c)
    → s.new_file_version < u32_mod
    → HasReceived c 0 t
    → t.new_file_version ≡ s.new_file_version
    → (u : ClientTransaction) × (d : Datagram) × (receive_all envs stales addr
          (packets s raws c s.total_packet_number)
          t
        ≡ (record u { status = done }, sends d ∷ []))
      × Reports c t u
      × ((on_receive (received back d) d.len from (finished raws s c).tran).status ≡ done)
report_taken raws stales envs addr s c t back from writable r f crc small v same_version =
    let (u, e, rep) = receive-whole s c r f envs stales raws addr writable t v in
    let raw = (envs (s.total_packet_number - 1)).raw in
    let d = control done (done_bytes u) raw u.server_address in
    let w = finished raws s c in
    let crc_lt : s.new_file_crc32 < u32_mod =
      subst (λ n. n < u32_mod) (sym (crc ∙ calculate_file_crc32-eq c))
        (calculate_crc32-lt c (length c) 0) in
    (
      u,
      d,
      e ∙ send_done raw u,
      rep,
      (on_receive-done_iff (received back d) d.len from w.tran r.sending).1 (
          done-Finishes back raw w.tran u refl (rep.version ∙ same_version, small)
            (rep.size ∙ r.size, omega (arith, r)) (rep.checksum ∙ sym crc, crc_lt)),
    )

-- From the server's DATA command to the client's DONE, over a network that neither loses nor
-- reorders a packet, for a file of two packets at least whose last one is not full and of
-- 2^32 - 1 - 1408 bytes at most, which the server can open and which is as the transaction was
-- created with, a version below 2^32, no request pending, and a client that has accepted the file's
-- INFO and can write its disk: the thread ends after five steps for a packet and three more, the
-- client then has the file's bytes and is in DONE, it has sent one datagram, and the server, its
-- thread having ended, takes that datagram as the end of the transfer.
pub transfer_completes :
    (disk : Disk) (raws stales : ℕ → TrftpMessage) (envs : ℕ → Env) (addr : Address)
    (s : ServerTransaction) (c : List ℕ) (t : ClientTransaction) (back : TrftpMessage)
    (from : Address)
    → ((k : ℕ) → (envs k).write_ok ≡ true)
    → IsReady s c
    → IsCarried c
    → disk s.file_path ≡ some c
    → s.new_file_crc32 ≡ calculate_file_crc32 (some c)
    → s.new_file_version < u32_mod
    → HasReceived c 0 t
    → t.new_file_version ≡ s.new_file_version
    → let w = run (5 * s.total_packet_number + 3) disk raws (started s) in
      let u = receive_all envs stales addr w.sends t in
      (w.pc ≡ exited)
      × (u.0.status ≡ done)
      × (u.0.new_file ≡ some c)
      × ((d : Datagram) × (u.1 ≡ sends d ∷ [])
          × ((on_receive (received back d) d.len from w.tran).status ≡ done))
transfer_completes disk raws stales envs addr s c t back from writable r f there crc small v
      same_version =
    let (u, d, whole, rep, accepted) =
      report_taken raws stales envs addr s c t back from writable r f crc small v same_version in
    subst
      (λ x.
        let y = receive_all envs stales addr x.sends t in
        (x.pc ≡ exited)
        × (y.0.status ≡ done)
        × (y.0.new_file ≡ some c)
        × ((d : Datagram) × (y.1 ≡ sends d ∷ [])
            × ((on_receive (received back d) d.len from x.tran).status ≡ done)))
      (sym (run-finished disk raws s c r there))
      (
        refl,
        ap (λ y. y.0.status) whole,
        ap (λ y. y.0.new_file) whole ∙ rep.stored,
        (d, ap (λ y. y.1) whole, accepted),
      )
