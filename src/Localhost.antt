-- ===== src/Localhost.antt =====
-- examples/localhost: the two programs that transfer a file on one host. An `int` is an integer; the
-- library's exceptions that nothing catches end a program.
pub mod Sending
pub mod Receiving
use Prim.Native.String.{String}
use trftp.Base.{
  ℕ, Bool, true, false, ◌||◌, not, ltb, Option, none, some, List, [], ◌∷◌, ◌++◌, if◌then◌else◌,
}
use trftp.Message.{MessageId, ntf, cxl}
use trftp.ServerTransaction.{Disk}
use trftp.Server.{Text, Course, Answer, throws, returns, exists, start_file_transfer}

pub data ℤ : Type 0 where
  pos negsuc : ℕ → ℤ

-- `port < 1024 || port > 65535`.
pub invalid_port : ℤ → Bool
invalid_port (pos n) = ltb n 1024 || ltb 65535 n
invalid_port (negsuc n) = true

-- The last line that localhost_server prints.
pub data Line : Type 0 where
  usage no_such_file not_regular bad_port client_not_found cancelled transferred : Line

-- How it ends: with an exit code, or by an exception.
pub data Exit : Type 0 where
  exits : ℕ → Line → Exit
  terminates : Exit

-- `"127.0.0.1:"`.
abbrev pub local_ip : Text
local_ip = 49 ∷ 50 ∷ 55 ∷ 46 ∷ 48 ∷ 46 ∷ 48 ∷ 46 ∷ 49 ∷ []

abbrev pub local_uri : Text → Text
local_uri port = local_ip ++ (58 ∷ port)

-- The end of localhost_server.cpp's `main`, by the result of the transfer.
pub report_status : MessageId → Exit
report_status ntf = exits 1 client_not_found
report_status cxl = exits 1 cancelled
report_status _ = exits 0 transferred

pub report : Answer → Exit
unfolding report_status
report (throws f) = terminates
report (returns e) = report_status e.0

-- What the standard library says of a program's arguments, of numbers and of files; `stoi` gives
-- `none` where it throws.
module _ (chars : String → Text) (stoi : Text → Option ℤ) (to_text : ℤ → Text)
    (is_regular_file : String → Bool) (port_of : Text → Option ℕ) (inet_addr : Text → ℕ) where
  -- Behind `std::stoi(argv[2])`; `opens` says whether the server's socket can be opened.
  send_to : Disk → Course → Bool → String → Option ℤ → Exit
  unfolding report
  send_to disk c opens path none = terminates
  send_to disk c opens path (some port) =
      if not (exists (disk path))
      then exits 1 no_such_file
      else if not (is_regular_file path)
      then exits 1 not_regular
      else if invalid_port port
      then exits 1 bad_port
      else if not opens
      then terminates
      else report
          (start_file_transfer port_of inet_addr disk c (local_uri (to_text port)) path 0 0 []).1

  -- `main` of localhost_server.cpp, for the arguments behind the program's name.
  pub server_main : Disk → Course → Bool → List String → Exit
  unfolding send_to
  server_main disk c opens (path ∷ port ∷ []) = send_to disk c opens path (stoi (chars port))
  server_main disk c opens _ = exits 1 usage

-- What the main thread of localhost_client.cpp meets: its handler is called with a file's content
-- and version, or its wait wakes up for no reason.
pub data Event : Type 0 where
  received : Option (List ℕ) → ℕ → Event
  spurious : Event

-- `received_file` is "trftp_file", to which the handler renames a file; `exit_code` is `none` for an
-- exception. What the program prints is left out.
pub record Outcome : Type 0 where
  pub received_file : Option (List ℕ)
  pub exit_code : Option ℕ

-- `std::filesystem::rename` replaces the old file.
renamed : Option (List ℕ) → Event → Option (List ℕ)
renamed old (received content version) = content
renamed old spurious = old

rename_all : List Event → Option (List ℕ) → Option (List ℕ)
unfolding renamed
rename_all [] old = old
rename_all (e ∷ es) old = rename_all es (renamed old e)

-- `cv.wait_for(lock, 30s)`, which has no condition: the first event ends it.
wait_for : List Event → Option (List ℕ) → Outcome
unfolding renamed
wait_for [] old = record { received_file = old; exit_code = some 1 }
wait_for (e ∷ es) old = record { received_file = renamed old e; exit_code = some 0 }

-- Behind `std::stoi(argv[1])`: the events before the wait, and those within it.
receive_at : Bool → List Event → List Event → Option (List ℕ) → Option ℤ → Outcome
unfolding rename_all wait_for
receive_at opens before during old none = record { received_file = old; exit_code = none }
receive_at opens before during old (some port) =
    if invalid_port port
    then record { received_file = old; exit_code = some 1 }
    else if not opens
    then record { received_file = old; exit_code = none }
    else wait_for during (rename_all before old)

-- `main` of localhost_client.cpp.
pub client_main :
    (String → Text)
    → (Text → Option ℤ)
    → Bool
    → List Event
    → List Event
    → Option (List ℕ)
    → List String
    → Outcome
unfolding receive_at
client_main chars stoi opens before during old (port ∷ []) =
    receive_at opens before during old (stoi (chars port))
client_main chars stoi opens before during old _ = record {
  received_file = old;
  exit_code = some 1;
}
