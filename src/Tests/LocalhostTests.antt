-- ===== src/Tests/LocalhostTests.antt =====
-- The two programs of examples/localhost on concrete arguments.
use trftp.Base.{ℕ, ◌≡◌, ◌↔◌, refl, arith, true, some, none, List, [], ◌∷◌}
use trftp.Message.{fin}
use trftp.ServerTransaction.{new_transaction}
use trftp.Server.{Course, cancels, drive}
use trftp.Server.Missed.{early}
use trftp.Localhost.{pos, exits, transferred, server_main, received, spurious, client_main}
use trftp.Localhost.Sending.{server_main-transferred}
use trftp.Localhost.Receiving.{last_file, client_main-misleads}
use trftp.Tests.{replicate, raw_message, disk_of}

abbrev file : List ℕ
file = replicate 1409

abbrev course : Course
course = record {
  notified = early (cancels raw_message ∷ []);
  informed = early [];
  sending = early [];
  raw = raw_message;
}

server_main-transferred_example :
    (server_main
        (λ s. [])
        (λ x. some (pos 3000))
        (λ n. [])
        (λ p. true)
        (λ x. some 3000)
        (λ x. 0x7F00_0001)
        (disk_of file)
        course
        true
        ("f" ∷ "3000" ∷ [])
      ≡ exits 0 transferred)
    ↔ ((drive course (new_transaction (record { ip = 0x7F00_0001; port = 3000 }) "f" 0 0 file)).0
        ≡ fin)
server_main-transferred_example =
    server_main-transferred (λ s. []) (λ x. some (pos 3000)) (λ n. []) (λ p. true) (λ x. some 3000)
      (λ x. 0x7F00_0001) (disk_of file) course "f" "3000" 3000 file refl refl refl (omega arith)
      (omega arith) refl

client_main-misleads_example :
    (client_main
        (λ s. [])
        (λ x. some (pos 3000))
        true
        (received (some file) 2 ∷ [])
        []
        none
        ("3000" ∷ [])
      ≡ record { received_file = last_file none (received (some file) 2 ∷ []); exit_code = some 1 })
    × (client_main (λ s. []) (λ x. some (pos 3000)) true [] (spurious ∷ []) none ("3000" ∷ [])
        ≡ record { received_file = none; exit_code = some 0 })
client_main-misleads_example =
    client_main-misleads (λ s. []) (λ x. some (pos 3000)) "3000" 3000 (received (some file) 2 ∷ [])
      [] none refl (omega arith) (omega arith)
