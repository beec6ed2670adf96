-- ===== src/Server/Failing.antt =====
-- `StartFileTransfer` when a call of `udp_socket.Send` throws: from `try_emplace` on, the table that
-- is left behind, and what becomes of it.
pub mod Blocked
use Prim.Native.String.{String}
use trftp.Base.{
  ℕ, suc, ◌+◌, ◌<◌, ◌≡◌, ◌≢◌, refl, sym, ap, ◌∙◌, arith, Bool, true, false, Option, none, some,
  List, [], ◌∷◌, ◌++◌, length, if◌then◌else◌, Bool-cases, inl, inr,
}
use trftp.Message.{MessageId, ntf, chk, info, rdy, cxl, data', done, fin, TrftpMessage}
use trftp.ServerTransaction.{Disk, ServerTransaction, Outcome, send_message}
use trftp.Server.{
  Text, Table, find, erase, wait_for_status, Course, Ended, Answer, throws, returns, drive, give_up,
  after_data, after_info, after_ntf, same_text, start_file_transfer,
}
use trftp.Server.Uri.{NoColon}
use trftp.Server.Table.{same_text_refl}

-- A call from its first `SendMessage` on: the transaction and what was sent before the failing send,
-- or its end.
pub data Attempt : Type 0 where
  thrown : ServerTransaction → List Outcome → Attempt
  ended : Ended → Attempt

-- Which sends of a call fail, by the number of outcomes before them.
abbrev pub Fails : Type 0
Fails = ℕ → Bool

-- A `SendMessage` that transmits, and what follows it.
abbrev sending :
    Fails
    → MessageId
    → TrftpMessage
    → ServerTransaction
    → List Outcome
    → (ServerTransaction → List Outcome → Attempt)
    → Attempt
sending fails id raw t os next =
    let (t', o) = send_message id raw t in
    let rest = next t' (os ++ (o ∷ [])) in if fails (length os) then thrown t' os else rest

-- `SendMessage(MessageId::CXL, udp_socket_); ... return FtpStatus::CXL;`
try_give_up : Fails → TrftpMessage → ServerTransaction → List Outcome → Attempt
try_give_up fails raw t os = sending fails cxl raw t os (λ t' os'. ended (cxl, t', os'))

-- From the wait behind DATA.
try_after_data :
    Fails → TrftpMessage → Option MessageId → ServerTransaction → List Outcome → Attempt
unfolding try_give_up
try_after_data fails raw (some cxl) t os = ended (cxl, t, os)
try_after_data fails raw (some done) t os =
    sending fails fin raw t os (λ t' os'. ended (fin, t', os'))
try_after_data fails raw _ t os = try_give_up fails raw t os

-- From the wait behind INFO; DATA starts the thread and sends nothing itself.
try_after_info : Fails → Course → Option MessageId → ServerTransaction → List Outcome → Attempt
unfolding try_after_data
try_after_info fails c (some cxl) t os = ended (cxl, t, os)
try_after_info fails c (some rdy) t os =
    let (t', o) = send_message data' c.raw t in
    let (status, t'') = wait_for_status c.sending t' in
    try_after_data fails c.raw status t'' (os ++ (o ∷ []))
try_after_info fails c _ t os = try_give_up fails c.raw t os

-- From the wait behind NTF.
try_after_ntf : Fails → Course → Option MessageId → ServerTransaction → List Outcome → Attempt
unfolding try_after_info
try_after_ntf fails c none t os = ended (ntf, t, os)
try_after_ntf fails c (some cxl) t os = ended (cxl, t, os)
try_after_ntf fails c (some chk) t os = sending fails info c.raw t os λ t' os'.
    let (status, t'') = wait_for_status c.informed t' in try_after_info fails c status t'' os'
try_after_ntf fails c _ t os = try_give_up fails c.raw t os

-- `StartFileTransfer` from the first `SendMessage` on.
pub attempt : Fails → Course → ServerTransaction → Attempt
unfolding try_after_ntf
attempt fails c t = sending fails ntf c.raw t [] λ t' os.
    let (status, t'') = wait_for_status c.notified t' in try_after_ntf fails c status t'' os

-- What the call leaves in the table, and its end: an exception passes every `erase` by.
pub settle : Text → Table → Attempt → Table × Option Ended
settle ip active (thrown t os) = ((ip, t) ∷ active, none)
settle ip active (ended e) = (erase ip active, some e)

-- `try_emplace`, and what follows it, for a client with no active transaction.
pub start_failing : Fails → Course → Text → Table → ServerTransaction → Table × Option Ended
unfolding settle
start_failing fails c ip active t = settle ip active (attempt fails c t)

-- No send fails.
abbrev pub never : Fails
never n = false

module _ (c : Course) where
  try_after_data-never :
      (status : Option MessageId) (t : ServerTransaction) (os : List Outcome)
      → try_after_data never c.raw status t os ≡ ended (after_data c.raw status t os)
  unfolding try_after_data try_give_up after_data give_up
  try_after_data-never status t os = ground arith

  try_after_info-never :
      (status : Option MessageId) (t : ServerTransaction) (os : List Outcome)
      → try_after_info never c status t os ≡ ended (after_info c status t os)
  unfolding try_after_info try_give_up after_info give_up
  try_after_info-never (some rdy) t os = try_after_data-never _ _ _
  try_after_info-never status t os = ground arith

  try_after_ntf-never :
      (status : Option MessageId) (t : ServerTransaction) (os : List Outcome)
      → try_after_ntf never c status t os ≡ ended (after_ntf c status t os)
  unfolding try_after_ntf try_give_up after_ntf give_up
  try_after_ntf-never (some chk) t os = try_after_info-never _ _ _
  try_after_ntf-never status t os = ground arith

  -- A call of which no send fails ends as `drive` does.
  attempt-drive : (t : ServerTransaction) → attempt never c t ≡ ended (drive c t)
  unfolding attempt drive
  attempt-drive t = try_after_ntf-never _ _ _
