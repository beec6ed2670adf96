-- ===== src/Transfer/Session/Start.antt =====
-- `StartFileTransfer` from its arguments on, with a client from NTF to FIN.
use Prim.Native.String.{String}
use trftp.Base.{
  ℕ, ◌+◌, ◌%◌, ◌<◌, ◌≤◌, ◌≡◌, refl, ap, ◌∙◌, arith, true, false, Option, none, some, List, ◌∷◌,
  ◌++◌, [], length, u32_max, u32_mod, if◌then◌else◌,
}
use trftp.Message.{MessageId, fin, payload_size}
use trftp.ServerTransaction.{Address, Disk, ServerTransaction, create}
use trftp.ServerTransaction
use trftp.ServerTransaction.Sender.{exited}
use trftp.ServerTransaction.Created.{create-eq}
use trftp.ClientTransaction.{ClientTransaction, file_received}
use trftp.Server.{Text, Table, find, Answer, throws, returns, exists, start_file_transfer}
use trftp.Server.Uri.{NoColon, start_file_transfer-append}
use trftp.Transfer.Data.{IsCarried}
use trftp.Transfer.Session.{Setup, session}
use trftp.Transfer.Session.Prepared.{IsFresh, IsWired}
use trftp.Transfer.Session.Course.{course, drive-session}

-- The transaction that the call creates.
abbrev pub created : Address → String → ℕ → ℕ → List ℕ → ServerTransaction
created = ServerTransaction.new_transaction

created-IsFresh :
    (addr : Address) (path : String) (version device : ℕ) (c : List ℕ)
    → length c + payload_size ≤ u32_max
    → version < u32_mod
    → IsFresh (created addr path version device c) c
unfolding ServerTransaction.new_transaction
created-IsFresh addr path version device c small h = record {
  no_request = refl;
  size = omega arith;
  count = omega arith;
  small = omega arith;
  checksum = refl;
  version = h;
}

-- The status that the call returns.
abbrev pub returned : Answer → Option MessageId
returned (throws e) = none
returned (returns e) = some e.0

module _ (stoi : Text → Option ℕ) (inet_addr : Text → ℕ) (disk : Disk) (x : Setup) (c : List ℕ)
    (f : IsCarried c) (u : ClientTransaction) (w : IsWired x u) where
  -- `StartFileTransfer` with an address without a colon and of at most 15 characters, a colon, a
  -- port that can be read, a version below 2^32, a file of two packets at least whose last one is
  -- not full and 2^32 - 1 - 1408 bytes at most, and a client with no transaction in the table, over
  -- a network that neither loses nor reorders a datagram. The client's transaction is not alive,
  -- and it can create and write its file; `inet_ntoa` writes the address that its messages come
  -- from as the call's address was given; each of its messages comes within the wait for it, and
  -- its report when the sending thread has ended. Then the call returns FIN, the thread has ended,
  -- and the client has the file's bytes, is in FIN and not alive, and its last act was the call of
  -- the application's handler with the version of the call, if it has a client.
  pub start_file_transfer-delivers :
      (port : Text) (p : ℕ) (path : String) (version device : ℕ) (active : Table)
      → NoColon x.ip
      → length x.ip < 16
      → stoi port ≡ some p
      → disk path ≡ some c
      → length c + payload_size ≤ u32_max
      → version < u32_mod
      → find x.ip active ≡ none
      → (x.opening 1).open_ok ≡ true
      → ((k : ℕ) → (x.envs k).write_ok ≡ true)
      → let t = created (record { ip = inet_addr x.ip; port = p % 65536 }) path version device c in
        let e = session disk x t u in
        (returned
            (start_file_transfer stoi inet_addr disk
              (course disk x t u)
              (x.ip ++ (58 ∷ port))
              path
              version
              device
              active).1
          ≡ some fin)
        × (e.thread.pc ≡ exited)
        × (e.client.new_file ≡ some c)
        × (e.client.status ≡ fin)
        × (e.client.is_active ≡ false)
        × (e.effects ≡ (if u.has_client then file_received version ∷ [] else []))
  start_file_transfer-delivers port p path version device active plain short number there small h
        free o writable =
      let addr : Address = record { ip = inet_addr x.ip; port = p % 65536 } in
      let t = created addr path version device c in
      let (ends, thread, stored, status, alive, delivered) =
        drive-session x t c u (created-IsFresh addr path version device c small h) f w disk o
          writable (unfold ServerTransaction.new_transaction in there) in
      (
        ap (λ a. returned a.1)
              (start_file_transfer-append stoi inet_addr disk (course disk x t u) path version
                device active x.ip port p t plain short (ap exists there) number
                (create-eq disk addr path version device c there) free)
            ∙ ap some ends,
        thread,
        stored,
        status,
        alive,
        unfold ServerTransaction.new_transaction in delivered,
      )
