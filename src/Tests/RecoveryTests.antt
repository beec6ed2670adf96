-- ===== src/Tests/RecoveryTests.antt =====
-- The client's receiver on disordered packets, and a repaired loss.
use trftp.Base.{ℕ, ◌≡◌, ◌-◌, ◌+◌, ◌*◌, ◌++◌, refl, arith, List, [], ◌∷◌}
use trftp.ServerTransaction.Sender.{exited, run}
use trftp.ServerTransaction.Sender.Run.Finish.{resends}
use trftp.Transfer.{receive_all}
use trftp.Transfer.Receiver.{
  Arrival, receive_one, Shows, has, holding, complete, reports, take_packets, Refines,
}
use trftp.Transfer.Receiver.Refinement.{receive_each, receive_each-Refines}
use trftp.Transfer.Loss.{at_address, asked, at_check, loss_repaired}
use trftp.Transfer.Data.{HasReceived, IsCarried}
use trftp.ServerTransaction.Sender.Run.{IsReady}
use trftp.ClientTransaction.{ClientTransaction}
use trftp.Message.{data', payload_size}
use trftp.Crc.{calculate_file_crc32}
use trftp.Base.{some, sym, length, take}
use trftp.ServerTransaction.{ServerTransaction}
use trftp.Tests.{
  replicate, length-replicate, sending, receiving, raw_message, some_address, some_env, disk_of,
}
use trftp.Tests.TransferTests.{
  file, server, client, server-IsReady, file-IsCarried, client-HasReceived,
}

abbrev packet : ℕ → Arrival
packet n = record {
  psn = n;
  env = some_env;
  stale = raw_message;
  raw = raw_message;
  addr = some_address;
}

abbrev disordered : List Arrival
disordered = packet 0 ∷ packet 1 ∷ packet 1 ∷ []

client-Shows : Shows file server.total_packet_number client (holding 0)
client-Shows = has 0 (omega arith) client-HasReceived

receive_each-Refines_example :
    Refines file 2
      (receive_each server file disordered client)
      (take_packets 2 (holding 0) (0 ∷ 1 ∷ 1 ∷ []))
receive_each-Refines_example =
    receive_each-Refines server file server-IsReady file-IsCarried disordered client (holding 0)
      (omega arith, refl, (omega arith, refl, (omega arith, refl, tt))) client-Shows refl

-- A file of three packets, the first of which has arrived.
abbrev long_file : List ℕ
long_file = replicate 2817

long_size : length long_file ≡ 2817
long_size = length-replicate 2817

abbrev long_server : ServerTransaction
long_server = sending long_file 2817 3

long_server-IsReady : IsReady long_server long_file
long_server-IsReady = record {
  sending = refl;
  no_request = refl;
  size = long_size;
  count = refl;
  nonempty = omega arith;
  small = omega arith;
}

long_file-IsCarried : IsCarried long_file
long_file-IsCarried = record {
  two_packets = omega (arith, long_size);
  part_packet = omega (arith, long_size);
}

abbrev begun_client : ClientTransaction
begun_client =
    record (receiving data' 3 2817 (calculate_file_crc32 (some long_file))
      (take (1 * payload_size) long_file)) { packet_sequence_number = 1 }

begun_client-HasReceived : HasReceived long_file 1 begun_client
begun_client-HasReceived = record {
  state = refl;
  counted = refl;
  expects = omega (arith, long_size);
  announced = sym long_size;
  checksum = refl;
  open_stream = refl;
  stored = refl;
}

-- Packet 1 is lost, and packet 2 comes.
loss_repaired_example :
    let again = resends (at_address long_server some_address) (λ i. raw_message) long_file [] 1 3 in
    let t =
      asked long_server long_file long_server-IsReady long_file-IsCarried
        (packet 2)
        1
        2
        begun_client
        begun_client-HasReceived
        raw_message
        some_address in
    let w =
      run (5 * (3 - 1) + 1) (disk_of long_file) (λ i. raw_message) (at_check t long_file []) in
    (w.pc ≡ exited)
    × (w.sends ≡ again ++ [])
    × Refines long_file 3
        (receive_all
          (λ i. some_env)
          (λ i. raw_message)
          some_address
          again
          (receive_one long_server long_file (packet 2) begun_client).0)
        (complete, reports ∷ [])
loss_repaired_example =
    loss_repaired long_server long_file long_server-IsReady long_file-IsCarried (packet 2) 1 2
      begun_client begun_client-HasReceived raw_message some_address (disk_of long_file)
      (λ i. some_env) (λ i. raw_message) (λ i. raw_message) some_address [] (omega arith)
      (omega arith) (omega arith) (omega arith) (λ i. refl)
