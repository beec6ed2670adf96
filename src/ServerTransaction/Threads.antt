-- ===== src/ServerTransaction/Threads.antt =====
-- The three threads that share one `ServerTransaction`: the sender of `SendFileAsync`, the
-- server's receiving thread (`OnReceive`) and the caller (`SendMessage`). Their steps interleave
-- freely. A retransmission request is cut in two, its check and its store: the sender may move
-- `packet_sequence_number_` in between.
pub mod Invariant
pub mod Packets
use trftp.Base.{ℕ, ◌≤◌, ◌≡◌, Bool, false, Option, none, some}
use trftp.Message.{MessageId, data', same, TrftpMessage}
use trftp.ServerTransaction.{Address, Disk, ServerTransaction, on_receive, send_message}
use trftp.ServerTransaction.Sender.{Sender, sender_step}

-- `pending` is a request that has passed its check and is not stored yet.
pub record System : Type 0 where
  pub sender : Sender
  pub pending : Option ℕ

abbrev pub with_tran : System → ServerTransaction → System
with_tran s t = record s { sender = record (s.sender) { tran = t } }

pub data Step (disk : Disk) : System → System → Type 0 where
  sends :
      (s : System) (raw : TrftpMessage)
      → Step disk s (record s { sender = sender_step disk raw s.sender })
  receives :
      (s : System) (m : TrftpMessage) (len : ℕ) (addr : Address)
      → s.pending ≡ none
      → Step disk s (with_tran s (on_receive m len addr s.sender.tran))
  checks_request :
      (s : System) (r : ℕ) (addr : Address)
      → s.pending ≡ none
      → s.sender.tran.status ≡ data'
      → r ≤ s.sender.tran.packet_sequence_number
      → Step disk s (record s {
        sender = record (s.sender) { tran = record (s.sender.tran) { client_address = addr } };
        pending = some r;
      })
  stores_request :
      (s : System) (r : ℕ)
      → s.pending ≡ some r
      → Step disk s (record s {
        sender = record (s.sender) { tran = record (s.sender.tran) { retransmit_psn = r } };
        pending = none;
      })
  commands :
      (s : System) (id : MessageId) (raw : TrftpMessage)
      → Step disk s (with_tran s (send_message id raw s.sender.tran).0)

pub data Reach (disk : Disk) (s : System) : System → Type 0 where
  here : Reach disk s s
  next : {u v : System} → Reach disk s u → Step disk u v → Reach disk s v
