-- ===== src/ServerTransaction/Sender/Run.antt =====
-- The file that the sender sends: its packets, and the transaction that is ready to send it.
pub mod Loop
pub mod Finish
use Prim.Native.Nat.{min}
use mathlib.Core.Path.{ap₂}
use trftp.Base.{
  ℕ, zero, suc, ◌+◌, ◌*◌, ◌-◌, ◌/◌, ◌≤◌, ◌<◌, ◌≡◌, refl, sym, ap, ◌∙◌, arith, Bool, some, List, [],
  ◌∷◌, ◌==◌, length, drop, length-take, length-drop, take-min, u32_max, lt→ltb, ltb-false, eq→==,
  ne→==, if◌then◌else◌,
}
use trftp.Message.{data', TrftpMessage, payload_size}
use trftp.ServerTransaction.{Disk, Datagram, ServerTransaction, complete_header}
use trftp.ServerTransaction.Sender.Steps.{step_then, run_none}
use trftp.ServerTransaction.Sender.{
  open_file, test, check, prepare, tail, waited, increment, exited, Sender, sender_step, step_at,
  take_rtx, transmit, open_step, packet_len, packet_offset, read_at, data_packet, run,
}

-- A transaction whose DATA command has been given, over a file `c` that can be opened.
pub record IsReady (t : ServerTransaction) (c : List ℕ) : Type 0 where
  pub sending : t.status ≡ data'
  pub no_request : t.retransmit_psn ≡ u32_max
  pub size : length c ≡ t.new_file_size
  pub count : t.total_packet_number ≡ (t.new_file_size + payload_size - 1) / payload_size
  pub nonempty : 0 < t.new_file_size
  pub small : t.new_file_size + payload_size ≤ u32_max

-- The payload of packet k: 1408 bytes of the file, or what is left of it.
abbrev pub chunk : List ℕ → ℕ → List ℕ
chunk c k = read_at c (k * payload_size) payload_size

-- Packets 0 to k - 1, the newest first.
abbrev pub packets : ServerTransaction → (ℕ → TrftpMessage) → List ℕ → ℕ → List Datagram
packets t raws c zero = []
packets t raws c (suc k) = data_packet t (raws k) k (chunk c k) ∷ packets t raws c k

-- Before the thread's first statement.
abbrev pub started : ServerTransaction → Sender
started t = record { tran = t; ifs = []; pc = open_file; sends = [] }

-- The end of the thread, with these datagrams sent.
abbrev pub exits_with : ServerTransaction → List ℕ → List Datagram → Sender
exits_with t c ds = record {
  tran = record t { packet_sequence_number = t.total_packet_number };
  ifs = c;
  pc = exited;
  sends = ds;
}

-- The end of the thread, with every packet sent.
abbrev pub finished : (ℕ → TrftpMessage) → ServerTransaction → List ℕ → Sender
finished raws t c = exits_with t c (packets t raws c t.total_packet_number)

module _ (t : ServerTransaction) (c : List ℕ) (v : IsReady t c) where
  packet_len-min :
      (k : ℕ)
      → k < t.total_packet_number
      → packet_len t k ≡ min payload_size (length (drop (k * payload_size) c))
  packet_len-min k h = ground (arith, v, length-drop (k * payload_size) c)

  pub packet_bytes :
      (k : ℕ) → k < t.total_packet_number → read_at c (packet_offset k) (packet_len t k) ≡ chunk c k
  packet_bytes k h =
      ap₂ (read_at c) (omega (arith, v)) (packet_len-min k h)
      ∙ take-min payload_size (drop (k * payload_size) c)

  pub packet_full :
      (k : ℕ)
      → k < t.total_packet_number
      → length (read_at c (packet_offset k) (packet_len t k)) ≡ packet_len t k
  packet_full k h =
      ap length (packet_bytes k h)
      ∙ length-take payload_size (drop (k * payload_size) c)
      ∙ sym (packet_len-min k h)
