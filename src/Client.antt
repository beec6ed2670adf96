-- ===== src/Client.antt =====
-- src/client/client.cpp and include/trftp/client/client.h: the listener of the client. The handler
-- that the application attaches is a flag, and its calls are the effect `file_received`.
pub mod Listen
pub mod Stuck
pub mod Threads
use trftp.Base.{ℕ, Bool, true, false, List, [], ◌∷◌, ◌++◌, if◌then◌else◌, Option}
use trftp.Message.{TrftpMessage}
use trftp.ServerTransaction.{Address}
use trftp.ClientTransaction.{
  ClientTransaction, Env, Effect, file_received, Result, Received, timeout, datagram, begin,
}
use trftp.ClientTransaction

pub record Client : Type 0 where
  pub is_running : Bool
  pub file_handler : Bool  -- `file_handler_` is not null
  pub transaction : ClientTransaction

-- The constructor, over the file that the temporary directory holds.
unfoldable pub new_client : ℕ → Option (List ℕ) → Client
new_client cur_version left = record {
  is_running = true;
  file_handler = false;
  transaction = ClientTransaction.new_transaction true cur_version left;
}

-- `~Client()`, up to the join of the listening thread and the destructor of the transaction.
unfoldable pub stop : Client → Client × List Effect
stop c =
    let (t, es) = ClientTransaction.reset c.transaction in
    (record c { is_running = false; transaction = t }, es)

unfoldable pub attach_file_handler : Client → Client
attach_file_handler c = record c { file_handler = true }

unfoldable pub detach_file_handler : Client → Client
detach_file_handler c = record c { file_handler = false }

-- `OnFileReceived`: whether the application's handler is called.
unfoldable pub on_file_received : Client → ℕ → List ℕ
on_file_received c version = if c.file_handler then version ∷ [] else []

-- `IsAlive()`.
abbrev pub is_alive : ClientTransaction → Bool
is_alive t = t.is_active

-- One round of `HandleIncomingMessages`.
pub listen_round : Env → Received → Client → Client × List Effect
listen_round env timeout c = (c, [])
listen_round env (datagram msg len addr) c =
    if is_alive c.transaction
    then (c, [])
    else let (t, es) = begin env msg len addr c.transaction in (record c { transaction = t }, es)

-- `HandleIncomingMessages` over what its rounds receive.
pub listen : List (Env × Received) → Client → Client × List Effect
listen [] c = (c, [])
listen ((env, r) ∷ rs) c =
    let (c', es) = listen_round env r c in
    let (c'', fs) = listen rs c' in if c.is_running then (c'', es ++ fs) else (c, [])
