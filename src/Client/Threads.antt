-- ===== src/Client/Threads.antt =====
-- The two threads of a client on its one transaction: the listener of src/client/client.cpp, whose
-- call of `Begin` is cut behind its first line and at the join of `Reset`, and the receiving thread of
-- `ClientTransaction::HandleIncomingMessages`, cut at the head of its loop. Their steps interleave
-- freely. A step that ends the process leads to no state.
pub mod Opens
pub mod Sound
pub mod Invariant
pub mod Missed
pub mod Window
use trftp.Base.{
  ℕ, ◌≡◌, ◌≢◌, Bool, true, false, ◌&&◌, Option, none, some, List, [], ◌∷◌, ◌++◌, if◌then◌else◌, not,
  ◌==◌,
}
use trftp.Message.{ntf, TrftpMessage, message_id}
use trftp.ServerTransaction.{Address}
use trftp.ClientTransaction.{
  ClientTransaction, Env, Effect, sends, Result, after, reset, join_effects, on_receive, Received,
  timeout, datagram, worker_round, ends_process,
}
use trftp.ClientTransaction.Delivery.{delivers}
use trftp.Client.{Client, attach_file_handler, detach_file_handler}
use trftp.Client.Stuck.{starts}

-- The arguments of a call of `Begin`.
pub record Opening : Type 0 where
  pub env : Env
  pub msg : TrftpMessage
  pub len : ℕ
  pub addr : Address

-- A call of the application's handler: the file at that moment, what had been announced, and whether
-- a `Reset` had cleared that and was waiting for the thread.
pub record Handed : Type 0 where
  pub file : Option (List ℕ)
  pub size : ℕ
  pub crc32 : ℕ
  pub version : ℕ
  pub during_reset : Bool

-- `opening` is a call of `Begin` that has marked the transaction as alive, and `resetting` says that
-- its `Reset` has cleared the fields and waits to join the old receiving thread; `receiving` says
-- that the receiving thread is in its loop.
pub record System : Type 0 where
  pub client : Client
  pub opening : Option Opening
  pub resetting : Bool
  pub receiving : Bool
  pub effects : List Effect
  pub handed : List Handed

-- `Reset` up to its join.
pub clear : ClientTransaction → ClientTransaction
clear t = record ((reset t).0) { thread = t.thread }

-- The rest of `Begin`, for a message that is an NTF.
abbrev pub continue_begin : Opening → ClientTransaction → Result
continue_begin o t = after (join_effects t) (
    on_receive (record (o.env) { on_thread = false }) o.msg o.len o.addr
      (record t { thread = false }))

-- What the application's handler is called with, if it is attached.
abbrev pub calls : System → ClientTransaction → List Effect → List Handed
calls s t es =
    if delivers es && s.client.file_handler
    then record {
      file = t.new_file;
      size = t.new_file_size;
      crc32 = t.new_file_crc32;
      version = t.new_file_version;
      during_reset = s.resetting;
    }
      ∷ []
    else []

-- Whether `Send` returns at every one of the datagrams: one to port 0, as in the address that `Reset`
-- leaves, makes `sendto` fail, and the exception ends the process.
abbrev pub can_send : List Effect → Bool
can_send [] = true
can_send (sends d ∷ es) = not (d.dest.port == 0) && can_send es
can_send (_ ∷ es) = can_send es

-- A system behind a handler.
abbrev pub handled : System → Result → System
handled s (t, es) = record s {
  client = record (s.client) { transaction = t };
  effects = s.effects ++ es;
  handed = s.handed ++ calls s t es;
}

abbrev pub cleared : System → System
cleared s = record s {
  client = record (s.client) { transaction = clear s.client.transaction };
  resetting = true;
}

abbrev pub joined : System → Opening → System
joined s o =
    let r = continue_begin o s.client.transaction in
    record (handled s r) { opening = none; resetting = false; receiving = starts r.1 }

abbrev pub round : System → Env → Received → Result
round s env r = (worker_round env r s.client.transaction).0

pub data Step : System → System → Type 0 where
  -- The listener hears an NTF while the transaction is not alive.
  begins :
      (s : System) (o : Opening)
      → s.opening ≡ none
      → s.client.transaction.is_active ≡ false
      → message_id o.msg.header.xid ≡ ntf
      → Step s (record s {
        client = record (s.client) {
          transaction = record (s.client.transaction) { is_active = true };
        };
        opening = some o;
        resetting = false;
      })
  -- `Reset` clears the fields.
  resets :
      (s : System) (o : Opening) → s.opening ≡ some o → s.resetting ≡ false → Step s (cleared s)
  -- It has joined the old thread, and handles the message.
  joins :
      (s : System) (o : Opening)
      → s.opening ≡ some o
      → s.resetting ≡ true
      → s.receiving ≡ false
      → can_send (continue_begin o s.client.transaction).1 ≡ true
      → Step s (joined s o)
  -- The receiving thread ends at the head of its loop.
  ends :
      (s : System)
      → s.receiving ≡ true
      → s.client.transaction.is_active ≡ false
      → Step s (record s { receiving = false })
  -- It waits in vain, and leaves the loop.
  times_out :
      (s : System) (env : Env)
      → s.receiving ≡ true
      → s.client.transaction.is_active ≡ true
      → can_send (round s env timeout).1 ≡ true
      → Step s (record (handled s (round s env timeout)) { receiving = false })
  -- It handles a message.
  receives :
      (s : System) (env : Env) (msg : TrftpMessage) (len : ℕ) (addr : Address)
      → s.receiving ≡ true
      → s.client.transaction.is_active ≡ true
      → ends_process (round s env (datagram msg len addr)).1 ≡ false
      → can_send (round s env (datagram msg len addr)).1 ≡ true
      → Step s (handled s (round s env (datagram msg len addr)))
  attaches : (s : System) → Step s (record s { client = attach_file_handler s.client })
  detaches : (s : System) → Step s (record s { client = detach_file_handler s.client })

pub data Reach (s : System) : System → Type 0 where
  here : Reach s s
  next : {u v : System} → Reach s u → Step u v → Reach s v
