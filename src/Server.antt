-- ===== src/Server.antt =====
-- src/server/server.cpp, include/trftp/server/server.h and `ServerTransaction::WaitForStatus` of
-- src/server/server_transaction.cpp: the table of active transactions, the routing of received
-- messages, and the course of one transfer. A text is a list of character codes.
pub mod Table
pub mod Waits
pub mod Drive
pub mod Results
pub mod Answers
pub mod Missed
pub mod Uri
pub mod Failing
pub mod Listen
pub mod Threads
pub mod Lifetime
use Prim.Native.String.{String}
use trftp.Base.{
  ℕ, zero, suc, ◌+◌, ◌%◌, Bool, true, false, Option, none, some, List, [], ◌∷◌, ◌++◌, ◌==◌, leb,
  not, ◌&&◌, if◌then◌else◌, length, take, drop,
}
use trftp.Message.{MessageId, ntf, chk, info, rdy, cxl, data', done, fin, same, TrftpMessage}
use trftp.ServerTransaction.{
  Address, Disk, ServerTransaction, Outcome, create, send_message, on_receive,
}

abbrev pub Text : Type 0
Text = List ℕ

pub same_text : Text → Text → Bool
same_text [] [] = true
same_text [] (b ∷ ys) = false
same_text (a ∷ xs) [] = false
same_text (a ∷ xs) (b ∷ ys) = a == b && same_text xs ys

-- `active_transactions_`.
abbrev pub Table : Type 0
Table = List (Text × ServerTransaction)

pub find {ℓ} : {A : Type ℓ} → Text → List (Text × A) → Option A
find ip [] = none
find ip ((key, t) ∷ rest) = if same_text ip key then some t else find ip rest

pub erase {ℓ} : {A : Type ℓ} → Text → List (Text × A) → List (Text × A)
erase ip [] = []
erase ip ((key, t) ∷ rest) =
    let rest' = erase ip rest in if same_text ip key then rest' else (key, t) ∷ rest'

-- A call through the table's shared pointer.
pub update : Text → (ServerTransaction → ServerTransaction) → Table → Table
update ip f [] = []
update ip f ((key, t) ∷ rest) =
    let rest' = update ip f rest in if same_text ip key then (key, f t) ∷ rest else (key, t) ∷ rest'

-- One round of `Server::HandleIncomingMessages` that has received a message; `inet_ntoa` writes the
-- sender's address as a text.
pub route : (ℕ → Text) → TrftpMessage → ℕ → Address → Table → Table
route inet_ntoa msg len addr active = update (inet_ntoa addr.ip) (on_receive msg len addr) active

abort_found : TrftpMessage → Text → Table → Option ServerTransaction → Option (Table × Outcome)
abort_found raw ip active none = none
abort_found raw ip active (some t) =
    some (update ip (λ u. (send_message cxl raw u).0) active, (send_message cxl raw t).1)

-- `AbortFileTransfer(client_ip)`; `none` is the exception for a client with no transaction.
pub abort_file_transfer : TrftpMessage → Text → Table → Option (Table × Outcome)
unfolding abort_found
abort_file_transfer raw ip active = abort_found raw ip active (find ip active)

-- What another thread does to the transaction while `StartFileTransfer` runs: the receiving thread,
-- `AbortFileTransfer` or the sending thread cancel or handle a message, and the sending thread
-- moves its counters.
pub data Event : Type 0 where
  receives : TrftpMessage → ℕ → Address → Event
  cancels : TrftpMessage → Event
  counts : ℕ → ℕ → Event

unfoldable pub apply : Event → ServerTransaction → ServerTransaction
apply (receives m len addr) t = on_receive m len addr t
apply (cancels raw) t = (send_message cxl raw t).0
apply (counts psn request) t = record t { packet_sequence_number = psn; retransmit_psn = request }

pub apply_all : List Event → ServerTransaction → ServerTransaction
apply_all [] t = t
apply_all (e ∷ es) t = apply_all es (apply e t)

-- The events of one wait: those before it reads the old status, and those behind it, each with
-- whether the waiting thread wakes up after it and looks at the status.
pub record Window : Type 0 where
  pub before : List Event
  pub during : List (Event × Bool)

abbrev pub events : List (Event × Bool) → List Event
events [] = []
events ((e, wakes) ∷ es) = e ∷ events es

-- `cv_.wait_for`: whether the status was seen to differ, at a wake-up or at the time-out. Events
-- behind the wake-up that ends the wait still come before the status is returned.
pub wait_loop : MessageId → List (Event × Bool) → ServerTransaction → Bool × ServerTransaction
wait_loop old [] t = (not (same t.status old), t)
wait_loop old ((e, wakes) ∷ es) t =
    let t' = apply e t in
    let rest = wait_loop old es t' in
    if wakes && not (same t'.status old) then (true, apply_all (events es) t') else rest

-- `WaitForStatus(timeout)`.
pub wait_for_status : Window → ServerTransaction → Option MessageId × ServerTransaction
wait_for_status w t =
    let t' = apply_all w.before t in
    let (changed, t'') = wait_loop t'.status w.during t' in
    (if changed then some t''.status else none, t'')

-- What is uncertain in one call of `StartFileTransfer`: its three waits, and its local messages.
pub record Course : Type 0 where
  pub notified : Window
  pub informed : Window
  pub sending : Window
  pub raw : TrftpMessage

-- The end of a call: the status it returns, the transaction, and what it has sent, in order.
abbrev pub Ended : Type 0
Ended = MessageId × ServerTransaction × List Outcome

-- `SendMessage(MessageId::CXL, udp_socket_); ... return FtpStatus::CXL;`
pub give_up : TrftpMessage → ServerTransaction → List Outcome → Ended
give_up raw t os = let (t', o) = send_message cxl raw t in (cxl, t', os ++ (o ∷ []))

-- From the wait behind DATA.
pub after_data : TrftpMessage → Option MessageId → ServerTransaction → List Outcome → Ended
after_data raw (some cxl) t os = (cxl, t, os)
after_data raw (some done) t os = let (t', o) = send_message fin raw t in (fin, t', os ++ (o ∷ []))
after_data raw _ t os = give_up raw t os

-- From the wait behind INFO.
pub after_info : Course → Option MessageId → ServerTransaction → List Outcome → Ended
unfolding after_data
after_info c (some cxl) t os = (cxl, t, os)
after_info c (some rdy) t os =
    let (t', o) = send_message data' c.raw t in
    let (status, t'') = wait_for_status c.sending t' in after_data c.raw status t'' (os ++ (o ∷ []))
after_info c _ t os = give_up c.raw t os

-- From the wait behind NTF.
pub after_ntf : Course → Option MessageId → ServerTransaction → List Outcome → Ended
unfolding after_info
after_ntf c none t os = (ntf, t, os)
after_ntf c (some cxl) t os = (cxl, t, os)
after_ntf c (some chk) t os =
    let (t', o) = send_message info c.raw t in
    let (status, t'') = wait_for_status c.informed t' in after_info c status t'' (os ++ (o ∷ []))
after_ntf c _ t os = give_up c.raw t os

-- `StartFileTransfer` from the first `SendMessage` on.
pub drive : Course → ServerTransaction → Ended
unfolding after_ntf
drive c t =
    let (t', o) = send_message ntf c.raw t in
    let (status, t'') = wait_for_status c.notified t' in after_ntf c status t'' (o ∷ [])

-- The exceptions of `StartFileTransfer`, in the order of its tests.
pub data Failure : Type 0 where
  invalid_address invalid_ip file_not_found invalid_port transaction_exists : Failure

pub data Answer : Type 0 where
  throws : Failure → Answer
  returns : Ended → Answer

-- `std::filesystem::exists(file_path)`.
abbrev pub exists : Option (List ℕ) → Bool
exists none = false
exists (some c) = true

next_position : Option ℕ → Option ℕ
next_position none = none
next_position (some n) = some (suc n)

-- `client_uri.find(':')`.
pub find_colon : Text → Option ℕ
unfolding next_position
find_colon [] = none
find_colon (c ∷ cs) = if c == 58 then some 0 else next_position (find_colon cs)

-- `std::stoi` with its exceptions, and `inet_addr`.
module _ (stoi : Text → Option ℕ) (inet_addr : Text → ℕ) where
  -- `try_emplace`, and what follows it.
  pub start_found :
      Course → Text → Table → Option ServerTransaction → ServerTransaction → Table × Answer
  start_found course ip active (some other) t = (active, throws transaction_exists)
  start_found course ip active none t = (erase ip ((ip, t) ∷ active), returns (drive course t))

  pub start_created : Course → Text → Table → Option ServerTransaction → Table × Answer
  unfolding start_found
  start_created course ip active none = (active, throws file_not_found)
  start_created course ip active (some t) = start_found course ip active (find ip active) t

  pub start_with_port : Disk → Course → Text → String → ℕ → ℕ → Table → Option ℕ → Table × Answer
  unfolding start_created
  start_with_port disk course ip path version device active none = (active, throws invalid_port)
  start_with_port disk course ip path version device active (some port) =
      start_created course ip active
        (create disk (record { ip = inet_addr ip; port = port % 65536 }) path version device)

  pub start_at : Disk → Course → Text → String → ℕ → ℕ → Table → Option ℕ → Table × Answer
  unfolding start_with_port
  start_at disk course uri path version device active none = (active, throws invalid_address)
  start_at disk course uri path version device active (some pos) =
      let ip = take pos uri in
      if leb 16 (length ip)
      then (active, throws invalid_ip)
      else if not (exists (disk path))
      then (active, throws file_not_found)
      else start_with_port disk course ip path version device active (stoi (drop (pos + 1) uri))

  -- `StartFileTransfer(client_uri, file_path, file_version, device)`.
  pub start_file_transfer : Disk → Course → Text → String → ℕ → ℕ → Table → Table × Answer
  unfolding start_at
  start_file_transfer disk course uri path version device active =
      start_at disk course uri path version device active (find_colon uri)
