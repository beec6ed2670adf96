-- ===== src/ServerTransaction/Sender/Tail.antt =====
-- Retransmission requests: where the sender takes one up, and what the wait behind the last packet
-- makes of it.
use trftp.Base.{
  ℕ, zero, suc, ◌+◌, ◌-◌, ◌≤◌, ◌<◌, ◌≡◌, ◌≢◌, refl, sym, ap, ◌∙◌, arith, false, List, ◌∷◌, length,
  u32_max, u32_mod, eq→==,
}
use trftp.Message.{cxl, same, TrftpMessage}
use trftp.ServerTransaction.{Disk, Datagram, complete_header}
use trftp.ServerTransaction.Sender.Steps.{step_then, run_none}
use trftp.ServerTransaction.Sender.{
  test, check, prepare, tail, waited, increment, exited, Sender, sender_step, step_at, take_rtx,
  transmit, packet_len, packet_offset, read_at, data_packet, run,
}

waited_step :
    (disk : Disk) (raw : TrftpMessage) (s : Sender)
    → s.pc ≡ waited
    → s.tran.retransmit_psn ≢ u32_max
    → sender_step disk raw s ≡ record s {
      tran = record (s.tran) {
        packet_sequence_number = s.tran.retransmit_psn;
        retransmit_psn = u32_max;
      };
      pc = increment;
    }
unfolding sender_step step_at take_rtx
waited_step disk raw s e h = ground arith

increment_step :
    (disk : Disk) (raw : TrftpMessage) (s : Sender)
    → s.pc ≡ increment
    → s.tran.packet_sequence_number + 1 < u32_mod
    → sender_step disk raw s ≡ record s {
      tran = record (s.tran) { packet_sequence_number = s.tran.packet_sequence_number + 1 };
      pc = test;
    }
unfolding sender_step step_at
increment_step disk raw s e h = ground arith

test_step :
    (disk : Disk) (raw : TrftpMessage) (s : Sender)
    → s.pc ≡ test
    → s.tran.packet_sequence_number < s.tran.total_packet_number
    → sender_step disk raw s ≡ record s { pc = check }
unfolding sender_step step_at
test_step disk raw s e h = ground arith

check_step :
    (disk : Disk) (raw : TrftpMessage) (s : Sender)
    → s.pc ≡ check
    → same s.tran.status cxl ≡ false
    → s.tran.retransmit_psn ≡ u32_max
    → sender_step disk raw s ≡ record s { pc = prepare }
unfolding sender_step step_at take_rtx
check_step disk raw s e live h = ground arith

-- At the message's preparation, for packet k and with no request left.
abbrev pub preparing : Sender → ℕ → Sender
preparing s k = record s {
  tran = record (s.tran) { packet_sequence_number = k; retransmit_psn = u32_max };
  pc = prepare;
}

request_step :
    (disk : Disk) (raw : TrftpMessage) (s : Sender)
    → s.pc ≡ check
    → same s.tran.status cxl ≡ false
    → s.tran.retransmit_psn ≢ u32_max
    → sender_step disk raw s ≡ preparing s s.tran.retransmit_psn
unfolding sender_step step_at take_rtx
request_step disk raw s e live h = ground arith

-- Packet k as the sender reads and sends it.
abbrev pub packet_of : (ℕ → TrftpMessage) → Sender → ℕ → Datagram
packet_of raws s k =
    data_packet s.tran (raws k) k (read_at s.ifs (packet_offset k) (packet_len s.tran k))

-- Behind the transmission of packet k.
abbrev pub resent : (ℕ → TrftpMessage) → Sender → ℕ → Sender
resent raws s k = record (preparing s k) { pc = tail; sends = packet_of raws s k ∷ s.sends }

prepare_step :
    (disk : Disk) (raws : ℕ → TrftpMessage) (s : Sender) (k : ℕ)
    → length (read_at s.ifs (packet_offset k) (packet_len s.tran k)) ≡ packet_len s.tran k
    → sender_step disk (raws k) (preparing s k) ≡ resent raws s k
unfolding sender_step step_at transmit data_packet complete_header
prepare_step disk raws s k full = rw (eq→== _ _ full) refl

-- A retransmission request that the thread finds at the top of the loop's body, the transfer not
-- being cancelled and the packet still readable, is served: two steps later exactly that packet,
-- with the bytes at its offset, has been sent, and the request is used up.
request_resent :
    (disk : Disk) (raws : ℕ → TrftpMessage) (s : Sender) (k : ℕ)
    → s.pc ≡ check
    → same s.tran.status cxl ≡ false
    → s.tran.retransmit_psn ≡ k
    → k ≢ u32_max
    → length (read_at s.ifs (packet_offset k) (packet_len s.tran k)) ≡ packet_len s.tran k
    → run 2 disk raws s ≡ resent raws s k
request_resent disk raws s k e live r h full =
    step_then disk raws 1 s (request_step disk _ s e live (λ q. h (sym r ∙ q)) ∙ ap (preparing s) r)
      (step_then disk raws 0 (preparing s k) (prepare_step disk raws s k full)
        (run_none disk raws _))

skip_then :
    (disk : Disk) (raws : ℕ → TrftpMessage) (n : ℕ) (s : Sender) {u : Sender}
    → s.pc ≡ waited
    → same s.tran.status cxl ≡ false
    → s.tran.retransmit_psn + 1 < s.tran.total_packet_number
    → s.tran.total_packet_number ≤ u32_max
    → run n disk raws (preparing s (s.tran.retransmit_psn + 1)) ≡ u
    → run (suc (suc (suc (suc n)))) disk raws s ≡ u
skip_then disk raws n s e live h small r =
    let t = record (s.tran) {
      packet_sequence_number = s.tran.retransmit_psn;
      retransmit_psn = u32_max;
    } in
    let t' = record t { packet_sequence_number = s.tran.retransmit_psn + 1 } in
    step_then disk raws (suc (suc (suc n))) s (waited_step disk _ s e (omega arith)) (
      step_then disk raws (suc (suc n)) (record s { tran = t; pc = increment })
        (increment_step disk _ _ refl (omega arith))
        (step_then disk raws (suc n) (record s { tran = t'; pc = test }) (test_step disk _ _ refl h)
          (step_then disk raws n (record s { tran = t'; pc = check })
            (check_step disk _ _ refl live refl) r)))

-- A request for packet r that is found behind the wait of the last packet is answered by packet
-- r + 1: the loop's increment follows, and packet r is not sent.
pub waited_skips_request :
    (disk : Disk) (raws : ℕ → TrftpMessage) (s : Sender)
    → s.pc ≡ waited
    → same s.tran.status cxl ≡ false
    → s.tran.retransmit_psn + 1 < s.tran.total_packet_number
    → s.tran.total_packet_number ≤ u32_max
    → run 4 disk raws s ≡ preparing s (s.tran.retransmit_psn + 1)
waited_skips_request disk raws s e live h small =
    skip_then disk raws 0 s e live h small (run_none disk raws _)

test_end_step :
    (disk : Disk) (raw : TrftpMessage) (s : Sender)
    → s.pc ≡ test
    → s.tran.packet_sequence_number ≡ s.tran.total_packet_number
    → sender_step disk raw s ≡ record s { pc = exited }
unfolding sender_step step_at
test_end_step disk raw s e h = ground arith

-- A request for the last packet that is found there ends the thread, and nothing more is sent.
waited_drops_last :
    (disk : Disk) (raws : ℕ → TrftpMessage) (s : Sender)
    → s.pc ≡ waited
    → s.tran.retransmit_psn + 1 ≡ s.tran.total_packet_number
    → s.tran.total_packet_number ≤ u32_max
    → ((run 3 disk raws s).pc ≡ exited) × ((run 3 disk raws s).sends ≡ s.sends)
waited_drops_last disk raws s e h small =
    let t = record (s.tran) {
      packet_sequence_number = s.tran.retransmit_psn;
      retransmit_psn = u32_max;
    } in
    let t' = record t { packet_sequence_number = s.tran.retransmit_psn + 1 } in
    let r : run 3 disk raws s ≡ record s { tran = t'; pc = exited } =
      step_then disk raws 2 s (waited_step disk _ s e (omega arith)) (
        step_then disk raws 1 (record s { tran = t; pc = increment })
          (increment_step disk _ _ refl (omega arith))
          (step_then disk raws 0 (record s { tran = t'; pc = test }) (test_end_step disk _ _ refl h)
            (run_none disk raws _))) in
    (ap (λ u. u.pc) r, ap (λ u. u.sends) r)

module _ (disk : Disk) (raws : ℕ → TrftpMessage) where
  -- The last packet.
  abbrev pub last_packet : Sender → Datagram
  last_packet s = packet_of raws s (s.tran.total_packet_number - 1)

  -- A transfer that waits behind its last packet, whose file is still readable there.
  pub record IsWaiting (s : Sender) : Type 0 where
    pub at_wait : s.pc ≡ waited
    pub live : same s.tran.status cxl ≡ false
    pub two_packets : 2 ≤ s.tran.total_packet_number
    pub small : s.tran.total_packet_number ≤ u32_max
    pub readable :
        let k = s.tran.total_packet_number - 1 in
        length (read_at s.ifs (packet_offset k) (packet_len s.tran k)) ≡ packet_len s.tran k

  -- The client asks for the packet before the last one, and the sender goes round.
  abbrev pub asked : Sender → Sender
  asked s = record s { tran = record (s.tran) { retransmit_psn = s.tran.total_packet_number - 2 } }

  tail_step :
      (raw : TrftpMessage) (s : Sender)
      → s.pc ≡ tail
      → s.tran.packet_sequence_number + 1 ≡ s.tran.total_packet_number
      → s.tran.total_packet_number ≤ u32_max
      → sender_step disk raw s ≡ record s { pc = waited }
  unfolding sender_step step_at
  tail_step raw s e h small = ground arith

  last_round :
      (s : Sender)
      → IsWaiting s
      → run 6 disk raws (asked s) ≡ record (preparing s (s.tran.total_packet_number - 1)) {
        pc = waited;
        sends = last_packet s ∷ s.sends;
      }
  last_round s v =
      let k = s.tran.total_packet_number - 1 in
      skip_then disk raws 2 (asked s) v.at_wait v.live (omega (arith, v)) v.small (
        ap (λ j. run 2 disk raws (preparing s j)) (omega (arith, v))
        ∙ step_then disk raws 1 (preparing s k) (prepare_step disk raws s k v.readable) (
            step_then disk raws 0
              (record (preparing s k) { pc = tail; sends = last_packet s ∷ s.sends })
              (tail_step _ _ refl (omega (arith, v)) v.small) (run_none disk raws _)))

  -- The rounds of a client that keeps asking.
  pub rounds : ℕ → Sender → Sender
  rounds zero s = s
  rounds (suc n) s = rounds n (run 6 disk raws (asked s))

  abbrev pub copies : ℕ → Datagram → List Datagram → List Datagram
  copies zero d ds = ds
  copies (suc n) d ds = copies n d (d ∷ ds)

  -- The packet before the last one, lost once, is never sent again: however often the client asks
  -- for it during the wait, every round sends the last packet and waits anew.
  pub tail_livelock :
      (n : ℕ) (s : Sender)
      → IsWaiting s
      → ((rounds n s).sends ≡ copies n (last_packet s) s.sends) × ((rounds n s).pc ≡ waited)
  unfolding rounds data_packet complete_header
  tail_livelock zero s v = (refl, v.at_wait)
  tail_livelock (suc n) s v =
      let k = s.tran.total_packet_number - 1 in
      let s' = record (preparing s k) { pc = waited; sends = last_packet s ∷ s.sends } in
      let v' : IsWaiting s' = record {
        at_wait = refl;
        live = v.live;
        two_packets = v.two_packets;
        small = v.small;
        readable = v.readable;
      } in
      rw (last_round s v, rounds) (tail_livelock n s' v')
