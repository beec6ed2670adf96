-- ===== src/ServerTransaction/Created.antt =====
-- A transaction as the factory creates it, once its DATA command is given.
use Prim.Native.String.{String}
use trftp.Base.{ℕ, ◌+◌, ◌≤◌, ◌<◌, ◌≡◌, refl, arith, some, List, length, u32_max}
use trftp.Message.{data', TrftpMessage, payload_size}
use trftp.Crc.{calculate_file_crc32}
use trftp.ServerTransaction.{
  Address, Disk, ServerTransaction, new_transaction, create, create_from, send_message,
}
use trftp.ServerTransaction.Sender.Run.{IsReady}

new_transaction-IsReady :
    (raw : TrftpMessage) (addr : Address) (path : String) (version device : ℕ) (c : List ℕ)
    → 0 < length c
    → length c + payload_size ≤ u32_max
    → IsReady (send_message data' raw (new_transaction addr path version device c)).0 c
unfolding new_transaction send_message
new_transaction-IsReady raw addr path version device c h small = record {
  sending = refl;
  no_request = refl;
  size = omega arith;
  count = omega arith;
  nonempty = omega arith;
  small = omega arith;
}

-- Creating a transaction for a file that exists succeeds.
pub create-eq :
    (disk : Disk) (addr : Address) (path : String) (version device : ℕ) (c : List ℕ)
    → disk path ≡ some c
    → create disk addr path version device ≡ some (new_transaction addr path version device c)
unfolding create create_from
create-eq disk addr path version device c e = rw e refl

-- For a file that is not empty and has at most 2^32 - 1 - 1408 bytes, creating a transaction
-- succeeds, and after the DATA command the transaction is ready to send the file: its
-- size and its number of packets are exact, its packet number is 0, and its CRC is the file's.
create-IsReady :
    (disk : Disk) (raw : TrftpMessage) (addr : Address) (path : String) (version device : ℕ)
    (c : List ℕ)
    → disk path ≡ some c
    → 0 < length c
    → length c + payload_size ≤ u32_max
    → (t : ServerTransaction) × (create disk addr path version device ≡ some t)
      × IsReady (send_message data' raw t).0 c
      × (t.new_file_crc32 ≡ calculate_file_crc32 (some c))
      × (t.packet_sequence_number ≡ 0)
      × (t.file_path ≡ path)
create-IsReady disk raw addr path version device c e h small = (
  new_transaction addr path version device c,
  create-eq disk addr path version device c e,
  new_transaction-IsReady raw addr path version device c h small,
  unfold new_transaction in refl,
  unfold new_transaction in refl,
  unfold new_transaction in refl,
)
