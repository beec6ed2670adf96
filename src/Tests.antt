-- ===== src/Tests.antt =====
-- The data of the examples: a file of two packets, its transfer, and a fresh client.
mod CrcTests
mod ServerTests
mod ClientTests
mod ThreadTests
mod TransferTests
mod CourseTests
mod RecoveryTests
mod SessionTests
mod SocketTests
mod ListenTests
mod LogTests
mod ClientThreadTests
mod ServerThreadTests
mod LocalhostTests
use Prim.Native.String.{String}
use trftp.Base.{ℕ, zero, suc, ◌≡◌, refl, ap, true, false, some, List, [], ◌∷◌, length, u32_max}
use trftp.Message.{MessageId, data', TrftpHeader, TrftpMessage}
use trftp.Crc.{calculate_file_crc32}
use trftp.ServerTransaction.{Address, Disk, ServerTransaction}
use trftp.ClientTransaction.{ClientTransaction, Env}

abbrev pub replicate : ℕ → List ℕ
replicate zero = []
replicate (suc n) = 7 ∷ replicate n

pub length-replicate : (n : ℕ) → length (replicate n) ≡ n
length-replicate zero = refl
length-replicate (suc n) = ap suc (length-replicate n)

-- A local message before it is written.
abbrev pub raw_message : TrftpMessage
raw_message = record {
  header = record {
    magic = 0;
    spid = 0;
    dpid = 0;
    tpn = 0;
    tpl = 0;
    xid = 0;
    crc32 = 0;
    psn = 0;
    pl = 0;
  };
  payload = [];
}

abbrev pub some_address : Address
some_address = record { ip = 0x7F00_0001; port = 3000 }

abbrev pub disk_of : List ℕ → Disk
disk_of c path = some c

abbrev pub some_env : Env
some_env = record { raw = raw_message; on_thread = false; open_ok = true; write_ok = true }

-- A server transaction whose DATA command has been given.
abbrev pub sending : List ℕ → ℕ → ℕ → ServerTransaction
sending c size tpn = record {
  file_path = "firmware.bin";
  new_file_version = 2;
  new_file_size = size;
  new_file_crc32 = calculate_file_crc32 (some c);
  status = data';
  device_id = 1;
  client_address = some_address;
  total_packet_number = tpn;
  packet_sequence_number = 0;
  retransmit_psn = u32_max;
  cur_file_version = 1;
  inter_packet_gap = 100;
}

-- A client transaction in a given state, with a given count.
abbrev pub receiving : MessageId → ℕ → ℕ → ℕ → List ℕ → ClientTransaction
receiving id tpn size crc stored = record {
  has_client = true;
  cur_file_version = 1;
  inter_packet_gap = 100;
  is_active = true;
  status = id;
  server_address = some_address;
  thread = true;
  total_packet_number = tpn;
  packet_sequence_number = 0;
  stream_open = true;
  new_file = some stored;
  new_file_version = 2;
  new_file_size = size;
  new_file_crc32 = crc;
}
