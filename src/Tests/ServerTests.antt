-- ===== src/Tests/ServerTests.antt =====
-- The server's messages, its handler and its retransmissions on concrete inputs.
use trftp.Base.{ℕ, ◌≡◌, ◌↔◌, refl, arith, true, [], ◌++◌}
use trftp.Message.{done, rtx, u32_bytes, cxl, TrftpMessage}
use trftp.Integrity.{validate_message_integrity}
use trftp.Wire.{received}
use trftp.ServerTransaction.{ServerTransaction, on_receive, send_message}
use trftp.ServerTransaction.Header.{Arrives, send_message-Arrives, data_packet-validate}
use trftp.ServerTransaction.Receive.{
  Move, on_receive-Move, Finishes, on_receive-done_iff, Untouched, on_receive-Untouched,
}
use trftp.ServerTransaction.Sender.{Sender, check, waited, run, data_packet}
use trftp.ServerTransaction.Sender.Tail.{
  preparing, waited_skips_request, IsWaiting, rounds, copies, last_packet, tail_livelock,
}
use trftp.ClientTransaction.Sending.{control}
use trftp.Tests.{replicate, length-replicate, raw_message, some_address, disk_of, sending}

abbrev server : ServerTransaction
server = sending (replicate 1409) 1409 2

send_message-Arrives_example :
    Arrives raw_message cxl server (send_message cxl raw_message server).1
send_message-Arrives_example = send_message-Arrives raw_message cxl raw_message server

data_packet-validate_example :
    let d = data_packet server raw_message 0 (replicate 1408) in
    validate_message_integrity (received raw_message d) d.len ≡ true
data_packet-validate_example =
    data_packet-validate raw_message raw_message server 0 (replicate 1408) (omega arith)
      (omega arith) refl (omega arith) (length-replicate 1408)

-- A client's report of the file, and its request for packet 0.
abbrev done_message : TrftpMessage
done_message = received raw_message (
    control done (u32_bytes 2 ++ (u32_bytes 1409 ++ u32_bytes server.new_file_crc32)) raw_message
      some_address)

abbrev rtx_message : TrftpMessage
rtx_message = received raw_message (control rtx (u32_bytes 0) raw_message some_address)

-- The server behind its last packet.
abbrev all_sent : ServerTransaction
all_sent = record server { packet_sequence_number = 2 }

on_receive-Move_example :
    Move done_message all_sent (on_receive done_message 44 some_address all_sent)
on_receive-Move_example = on_receive-Move done_message 44 some_address all_sent

on_receive-Untouched_example :
    Untouched rtx_message all_sent (on_receive rtx_message 36 some_address all_sent)
on_receive-Untouched_example = on_receive-Untouched rtx_message 36 some_address all_sent

on_receive-done_iff_example :
    ((on_receive done_message 44 some_address all_sent).status ≡ done)
    ↔ Finishes done_message 44 all_sent
on_receive-done_iff_example = on_receive-done_iff done_message 44 some_address all_sent refl

-- A thread behind the wait of its last packet, with a request for packet r.
abbrev waiting : ℕ → Sender
waiting r = record {
  tran = record (sending (replicate 2817) 2817 3) {
    packet_sequence_number = 2;
    retransmit_psn = r;
  };
  ifs = replicate 2817;
  pc = waited;
  sends = [];
}

abbrev at_check : Sender
at_check = record (waiting 1) { pc = check }

waited_skips_request_example :
    run 4 (disk_of []) (λ _. raw_message) (waiting 1) ≡ preparing (waiting 1) 2
waited_skips_request_example =
    waited_skips_request (disk_of []) (λ _. raw_message) (waiting 1) refl refl (omega arith)
      (omega arith)

waiting-IsWaiting : IsWaiting (disk_of []) (λ _. raw_message) (waiting 1)
waiting-IsWaiting = record {
  at_wait = refl;
  live = refl;
  two_packets = omega arith;
  small = omega arith;
  readable = refl;
}

tail_livelock_example :
    let u = rounds (disk_of []) (λ _. raw_message) 9 (waiting 1) in
    (u.sends
      ≡ copies
          (disk_of [])
          (λ _. raw_message)
          9
          (last_packet (disk_of []) (λ _. raw_message) (waiting 1))
          [])
    × (u.pc ≡ waited)
tail_livelock_example =
    tail_livelock (disk_of []) (λ _. raw_message) 9 (waiting 1) waiting-IsWaiting
