-- ===== src/Tests/TransferTests.antt =====
-- The end-to-end theorem on a file of 1409 bytes, and the client's side of it.
use trftp.Base.{true, ℕ, ◌≡◌, refl, sym, arith, some, List, [], ◌∷◌, length}
use trftp.Message.{rdy, done}
use trftp.Crc.{calculate_file_crc32}
use trftp.Wire.{received}
use trftp.ServerTransaction.{Datagram, ServerTransaction, on_receive}
use trftp.ServerTransaction.Sender.{exited, run}
use trftp.ServerTransaction.Sender.Run.{IsReady, started, finished}
use trftp.ServerTransaction.Sender.Run.Finish.{run-finished}
use trftp.ClientTransaction.{ClientTransaction, sends}
use trftp.Transfer.{receive_all}
use trftp.Transfer.Data.{HasReceived, IsCarried}
use trftp.ClientTransaction
use trftp.Integrity.{validate_message_integrity}
use trftp.Message.{cxl}
use trftp.ServerTransaction.Sender.{data_packet}
use trftp.ServerTransaction.Sender.Run.{chunk}
use trftp.Transfer.Small.{small_file_refused}
use trftp.Transfer.Done.{transfer_completes}
use trftp.Tests.{
  replicate, length-replicate, raw_message, some_address, disk_of, some_env, sending, receiving,
}

abbrev pub file : List ℕ
file = replicate 1409

abbrev pub server : ServerTransaction
server = sending file 1409 2

abbrev pub client : ClientTransaction
client = receiving rdy 2 1409 (calculate_file_crc32 (some file)) []

pub file_size : length file ≡ 1409
file_size = length-replicate 1409

pub server-IsReady : IsReady server file
server-IsReady = record {
  sending = refl;
  no_request = refl;
  size = file_size;
  count = refl;
  nonempty = omega arith;
  small = omega arith;
}

pub file-IsCarried : IsCarried file
file-IsCarried = record {
  two_packets = omega (arith, file_size);
  part_packet = omega (arith, file_size);
}

pub client-HasReceived : HasReceived file 0 client
client-HasReceived = record {
  state = refl;
  counted = refl;
  expects = omega (arith, file_size);
  announced = sym file_size;
  checksum = refl;
  open_stream = refl;
  stored = refl;
}

transfer_completes_example :
    let w = run 13 (disk_of file) (λ _. raw_message) (started server) in
    let u = receive_all (λ _. some_env) (λ _. raw_message) some_address w.sends client in
    (w.pc ≡ exited)
    × (u.0.status ≡ done)
    × (u.0.new_file ≡ some file)
    × ((d : Datagram) × (u.1 ≡ sends d ∷ [])
        × ((on_receive (received raw_message d) d.len some_address w.tran).status ≡ done))
transfer_completes_example =
    transfer_completes (disk_of file) (λ _. raw_message) (λ _. raw_message) (λ _. some_env)
      some_address server file client raw_message some_address (λ _. refl) server-IsReady
      file-IsCarried refl refl (omega arith) client-HasReceived refl

run-finished_example :
    run 13 (disk_of file) (λ _. raw_message) (started server)
    ≡ finished (λ _. raw_message) server file
run-finished_example =
    run-finished (disk_of file) (λ _. raw_message) server file server-IsReady refl

-- A file of three bytes, and a client that is ready for it.
abbrev small : List ℕ
small = replicate 3

abbrev small_server : ServerTransaction
small_server = sending small 3 1

small-IsReady : IsReady small_server small
small-IsReady = record {
  sending = refl;
  no_request = refl;
  size = refl;
  count = refl;
  nonempty = omega arith;
  small = omega arith;
}

abbrev small_client : ClientTransaction
small_client = receiving rdy 1 3 (calculate_file_crc32 (some small)) []

small-HasReceived : HasReceived small 0 small_client
small-HasReceived = record {
  state = refl;
  counted = refl;
  expects = refl;
  announced = refl;
  checksum = refl;
  open_stream = refl;
  stored = refl;
}

small_file_refused_example :
    let d = data_packet small_server raw_message 0 (chunk small 0) in
    (validate_message_integrity (received raw_message d) d.len ≡ true)
    × (small_server.total_packet_number ≡ 1)
    × ((ClientTransaction.on_receive some_env
          (received raw_message d)
          d.len
          some_address
          small_client).0.status
        ≡ cxl)
small_file_refused_example =
    small_file_refused some_env raw_message raw_message some_address small_server small small_client
      small-IsReady (omega arith) small-HasReceived
