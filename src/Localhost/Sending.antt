-- ===== src/Localhost/Sending.antt =====
-- The program that sends a file, together with `StartFileTransfer`.
use Prim.Native.String.{String}
use trftp.Base.{
  List, ap, ℕ, ◌%◌, ◌≤◌, ◌≡◌, ◌↔◌, refl, arith, Bool, true, false, Option, some, [], ◌∷◌,
}
use trftp.Message.{MessageId, fin}
use trftp.ServerTransaction.{Address, Disk, new_transaction}
use trftp.ServerTransaction.Created.{create-eq}
use trftp.Server.{Text, Course, exists, drive}
use trftp.Server.Results.{IsResult, not_found, aborted, sent, drive-IsResult}
use trftp.Server.Uri.{NoColon, start_file_transfer-append, find_nothing}
use trftp.Localhost.{
  ℤ, pos, invalid_port, exits, transferred, local_ip, report_status, report, send_to, server_main,
}

-- What the program makes of a result.
report_iff : {id : MessageId} → IsResult id → (report_status id ≡ exits 0 transferred) ↔ (id ≡ fin)
unfolding report_status
report_iff not_found = (λ e. absurd (cc e), λ e. absurd (cc e))
report_iff aborted = (λ e. absurd (cc e), λ e. absurd (cc e))
report_iff sent = (λ e. refl, λ e. refl)

pub valid_port : (n : ℕ) → 1024 ≤ n → n ≤ 65535 → invalid_port (pos n) ≡ false
unfolding invalid_port
valid_port n l u = ground arith

plain : NoColon local_ip
plain = ground arith

-- The program that sends a file, for arguments that name a regular file and a port from 1024 to
-- 65535, which `std::stoi` reads from the argument, and once more from its own text, where the
-- server's socket can be opened: it exits with 0, and says that the file was transferred, exactly if
-- the course of `StartFileTransfer` on the transaction for the file and 127.0.0.1 ends in FIN.
pub server_main-transferred :
    (chars : String → Text) (stoi : Text → Option ℤ) (to_text : ℤ → Text)
    (is_regular_file : String → Bool) (port_of : Text → Option ℕ) (inet_addr : Text → ℕ)
    (disk : Disk) (c : Course) (path port : String) (n : ℕ) (content : List ℕ)
    → disk path ≡ some content
    → is_regular_file path ≡ true
    → stoi (chars port) ≡ some (pos n)
    → 1024 ≤ n
    → n ≤ 65535
    → port_of (to_text (pos n)) ≡ some n
    → let t =
        new_transaction (record { ip = inet_addr local_ip; port = n % 65536 }) path 0 0 content in
      (server_main chars stoi to_text is_regular_file port_of inet_addr disk c true
          (path ∷ port ∷ [])
        ≡ exits 0 transferred)
      ↔ ((drive c t).0 ≡ fin)
unfolding server_main send_to report
server_main-transferred chars stoi to_text is_regular_file port_of inet_addr disk c path port n
      content there regular number low high again =
    let addr : Address = record { ip = inet_addr local_ip; port = n % 65536 } in
    let t = new_transaction addr path 0 0 content in
    let run =
      start_file_transfer-append port_of inet_addr disk c path 0 0 [] local_ip (to_text (pos n)) n t
        plain (omega arith) (ap exists there) again (create-eq disk addr path 0 0 content there)
        (find_nothing local_ip) in
    rw (number, there, regular, valid_port n low high, run) (report_iff (drive-IsResult c t))
