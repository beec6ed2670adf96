-- ===== src/Tests/SessionTests.antt =====
-- A whole session for a file of 1409 bytes.
use trftp.Base.{◌++◌, ◌≡◌, refl, arith, true, false, none, some, [], ◌∷◌}
use trftp.Message.{fin}
use trftp.ServerTransaction.{Address, ServerTransaction}
use trftp.ServerTransaction.Sender.{exited}
use trftp.ClientTransaction.{ClientTransaction, file_received, new_transaction}
use trftp.Transfer.Session.{Setup, session}
use trftp.Transfer.Session.Prepared.{IsWired}
use trftp.Transfer.Session.Course.{course}
use trftp.Server.{Text, find, start_file_transfer}
use trftp.Server.Uri.{NoColon, find_nothing}
use trftp.Transfer.Session.Start.{created, returned, start_file_transfer-delivers}
use trftp.Tests.{raw_message, some_address, some_env, disk_of}
use trftp.Tests.TransferTests.{file, file_size, file-IsCarried}

-- "127.0.0.1".
abbrev ip : Text
ip = 49 ∷ 50 ∷ 55 ∷ 46 ∷ 48 ∷ 46 ∷ 48 ∷ 46 ∷ 49 ∷ []

abbrev setup : Setup
setup = record {
  raws = λ i. raw_message;
  stales = λ i. raw_message;
  envs = λ i. some_env;
  opening = λ i. some_env;
  server = some_address;
  client = some_address;
  ip = ip;
  inet_ntoa = λ n. ip;
}

abbrev fresh_client : ClientTransaction
fresh_client = new_transaction true 1 none

abbrev address : Address
address = record { ip = 0x7F00_0001; port = 3000 }

abbrev creates : ServerTransaction
creates = created address "f" 2 1 file

plain : NoColon ip
plain = ground arith

free : find {A = ServerTransaction} ip [] ≡ none
free = find_nothing ip

wired : IsWired setup fresh_client
unfolding new_transaction
wired = record { idle = refl; known = refl }

start_file_transfer-delivers_example :
    let e = session (disk_of file) setup creates fresh_client in
    (returned
        (start_file_transfer
          (λ _. some 3000)
          (λ _. 0x7F00_0001)
          (disk_of file)
          (course (disk_of file) setup creates fresh_client)
          (ip ++ (58 ∷ 51 ∷ []))
          "f"
          2
          1
          []).1
      ≡ some fin)
    × (e.thread.pc ≡ exited)
    × (e.client.new_file ≡ some file)
    × (e.client.status ≡ fin)
    × (e.client.is_active ≡ false)
    × (e.effects ≡ file_received 2 ∷ [])
unfolding new_transaction
start_file_transfer-delivers_example =
    start_file_transfer-delivers (λ _. some 3000) (λ _. 0x7F00_0001) (disk_of file) setup file
      file-IsCarried fresh_client wired (51 ∷ []) 3000 "f" 2 1 [] plain (omega arith) refl refl
      (omega (arith, file_size)) (omega arith) free refl (λ i. refl)
