-- ===== src/Transfer/Data.antt =====
-- The DATA packets of a whole file, against the client's tests of a packet.
use Prim.Native.Nat.{min}
use trftp.Base.{
  ℕ, zero, suc, ◌+◌, ◌*◌, ◌-◌, ◌/◌, ◌%◌, ◌≤◌, ◌<◌, ◌≡◌, ◌≢◌, sym, ap, ◌∙◌, arith, true, not, ◌&&◌,
  some, List, ◌==◌, ltb, length, take, drop, length-take, length-drop, u32_max, sub32, subst,
  if◌then◌else◌, eq→==, ne→==, Bool-cases, inl, inr, ltb→lt, ltb_false→le,
}
use trftp.Message.{MessageId, same, rdy, data', TrftpMessage, payload_size}
use trftp.Crc.{calculate_file_crc32}
use trftp.Wire.{received}
use trftp.Integrity.{validate_message_integrity}
use trftp.ServerTransaction.{ServerTransaction, complete_header, header_tpn}
use trftp.ServerTransaction.Sender.{data_packet, packet_len}
use trftp.ServerTransaction.Sender.Run.{IsReady, chunk, packet_bytes, packet_full}
use trftp.ServerTransaction.Header.{data_packet-validate}
use trftp.ClientTransaction.{ClientTransaction, data_expected}

-- A client that has the first k packets of the file c.
pub record HasReceived (c : List ℕ) (k : ℕ) (t : ClientTransaction) : Type 0 where
  pub state : t.status ≡ (if k == 0 then rdy else data')
  pub counted : t.packet_sequence_number ≡ k
  pub expects : t.total_packet_number ≡ (length c + payload_size - 1) / payload_size
  pub announced : t.new_file_size ≡ length c
  pub checksum : t.new_file_crc32 ≡ calculate_file_crc32 (some c)
  pub open_stream : t.stream_open ≡ true
  pub stored : t.new_file ≡ some (take (k * payload_size) c)

-- A file that the protocol can carry: two packets at least, and the last one not full.
pub record IsCarried (c : List ℕ) : Type 0 where
  pub two_packets : payload_size < length c
  pub part_packet : length c % payload_size ≢ 0

length-chunk :
    (c : List ℕ) (k : ℕ) → length (chunk c k) ≡ min payload_size (length c - k * payload_size)
length-chunk c k =
    omega (
      arith,
      length-take payload_size (drop (k * payload_size) c),
      length-drop (k * payload_size) c,
    )

-- The client's tests on the number and the length of a packet, over plain numbers.
expected_cases :
    (id : MessageId) (k n tpn size : ℕ)
    → id ≡ (if k == 0 then rdy else data')
    → payload_size < size
    → size + payload_size ≤ u32_max
    → size % payload_size ≢ 0
    → tpn ≡ (size + payload_size - 1) / payload_size
    → k < tpn
    → n ≡ min payload_size (size - k * payload_size)
    → (if k == 0
        then same id rdy && n == payload_size
        else if ltb k (sub32 tpn 1)
        then same id data' && n == payload_size
        else same id data' && n == size % payload_size)
      ≡ true
expected_cases id zero n tpn size e p q m t h l = rw e (eq→== n payload_size (omega arith))
expected_cases id (suc k) n tpn size e p q m t h l = elim (Bool-cases (ltb (suc k) (sub32 tpn 1))) [
  | inl middle ↦
      rw (e, ne→== (suc k) 0 (omega arith), middle)
        (eq→== n payload_size (omega (arith, ltb→lt _ _ middle)))
  | inr last ↦
      rw (e, ne→== (suc k) 0 (omega arith), last)
        (eq→== n (size % payload_size) (omega (arith, ltb_false→le _ _ last)))
]

module _ (s : ServerTransaction) (c : List ℕ) (r : IsReady s c) (f : IsCarried c) where
  chunk-packet_len : (k : ℕ) → k < s.total_packet_number → length (chunk c k) ≡ packet_len s k
  chunk-packet_len k h = sym (ap length (packet_bytes s c r k h)) ∙ packet_full s c r k h

  tpn-header_tpn : s.total_packet_number ≡ header_tpn s.new_file_size
  tpn-header_tpn = ground (arith, r)

  not_refused :
      (k : ℕ) → not (k + 1 == s.total_packet_number && s.new_file_size % payload_size == 0) ≡ true
  not_refused k = ground (arith, r, f)

  -- Each packet passes the client's check.
  pub packet-arrives :
      (stale raw : TrftpMessage) (k : ℕ)
      → k < s.total_packet_number
      → let d = data_packet s raw k (chunk c k) in
        validate_message_integrity (received stale d) d.len ≡ true
  packet-arrives stale raw k h =
      data_packet-validate stale raw s k (chunk c k) r.nonempty (omega (arith, r)) tpn-header_tpn h
        (chunk-packet_len k h)
      ∙ not_refused k

  pub data_expected-packet :
      (t : ClientTransaction) (stale raw : TrftpMessage) (k : ℕ)
      → k < s.total_packet_number
      → t.status ≡ (if k == 0 then rdy else data')
      → t.new_file_size ≡ length c
      → data_expected
          (received stale (data_packet s raw k (chunk c k))).header
          (length (chunk c k))
          t
        ≡ true
  unfolding data_packet complete_header
  data_expected-packet t stale raw k h state announced =
      expected_cases t.status k (length (chunk c k)) _ t.new_file_size state (omega (arith, f))
        (omega (arith, r)) (omega (arith, f)) (sym tpn-header_tpn ∙ omega (arith, r))
        (subst (λ n. k < n) tpn-header_tpn h) (omega (arith, length-chunk c k))
