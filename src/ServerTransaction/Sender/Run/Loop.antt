-- ===== src/ServerTransaction/Sender/Run/Loop.antt =====
-- The sender's loop without a cancellation or a request, from any packet on.
use trftp.Base.{
  ℕ, zero, suc, ◌+◌, ◌*◌, ◌≤◌, ◌<◌, ◌≡◌, refl, ap, ◌∙◌, arith, Bool, List, ◌∷◌, ◌==◌, length,
  lt→ltb, ltb-false, eq→==, ne→==, if◌then◌else◌,
}
use trftp.Message.{TrftpMessage}
use trftp.ServerTransaction.{Disk, Datagram, ServerTransaction, complete_header}
use trftp.ServerTransaction.Sender.Steps.{step_then, run_none}
use trftp.ServerTransaction.Sender.{
  test, check, prepare, tail, waited, increment, Sender, sender_step, step_at, take_rtx, transmit,
  packet_len, packet_offset, read_at, data_packet, run,
}
use trftp.ServerTransaction.Sender.Run.{IsReady, chunk, exits_with, packet_bytes, packet_full}

module _ (disk : Disk) (raws : ℕ → TrftpMessage) (t : ServerTransaction) (c : List ℕ)
    (v : IsReady t c) (first : ℕ) (sofar : ℕ → List Datagram)
    (grows : (k : ℕ)
      → first ≤ k
      → k < t.total_packet_number
      → sofar (suc k) ≡ data_packet t (raws k) k (chunk c k) ∷ sofar k) where
  -- A packet that is still to be sent.
  abbrev IsDue : ℕ → Type 0
  IsDue k = (first ≤ k) × (k < t.total_packet_number)

  -- At the loop's test, before packet k.
  abbrev pub at_test : ℕ → Sender
  at_test k = record {
    tran = record t { packet_sequence_number = k };
    ifs = c;
    pc = test;
    sends = sofar k;
  }

  data_packet-tran :
      (k n : ℕ) (raw : TrftpMessage) (bytes : List ℕ)
      → data_packet (record t { packet_sequence_number = n }) raw k bytes
        ≡ data_packet t raw k bytes
  unfolding data_packet complete_header
  data_packet-tran k n raw bytes = refl

  transmit_packet :
      (k : ℕ)
      → IsDue k
      → transmit (raws k) (record (at_test k) { pc = prepare })
        ≡ record (at_test k) { pc = tail; sends = sofar (suc k) }
  unfolding transmit
  transmit_packet k h =
      rw
        (
          eq→== (length (read_at c (packet_offset k) (packet_len t k))) (packet_len t k)
              (packet_full t c v k h.1),
          packet_bytes t c v k h.1,
          data_packet-tran k k (raws k) (chunk c k),
          grows k h.0 h.1,
        )
        refl

  at_test_step :
      (k : ℕ) → IsDue k → sender_step disk (raws k) (at_test k) ≡ record (at_test k) { pc = check }
  unfolding sender_step step_at
  at_test_step k h = rw (lt→ltb k t.total_packet_number h.1) refl

  -- Before packet k is read and sent.
  abbrev pub at_prepare : ℕ → Sender
  at_prepare k = record (at_test k) { pc = prepare }

  at_check_step :
      (k : ℕ)
      → sender_step disk (raws k) (record (at_test k) { pc = check })
        ≡ record (at_test k) { pc = prepare }
  unfolding sender_step step_at take_rtx
  at_check_step k = ground (arith, v)

  -- Behind the transmission of packet k.
  abbrev at_tail : ℕ → Sender
  at_tail k = record (at_test k) { pc = tail; sends = sofar (suc k) }

  at_prepare_step :
      (k : ℕ)
      → IsDue k
      → sender_step disk (raws k) (record (at_test k) { pc = prepare }) ≡ at_tail k
  unfolding sender_step step_at
  at_prepare_step k h = transmit_packet k h

  at_tail_step :
      (k : ℕ)
      → IsDue k
      → sender_step disk (raws k) (at_tail k)
        ≡ record (at_tail k) { pc = if suc k == t.total_packet_number then waited else increment }
  unfolding sender_step step_at
  at_tail_step k h = ground (arith, v)

  at_tail_branch :
      (k : ℕ) {b : Bool}
      → (suc k == t.total_packet_number) ≡ b
      → record (at_tail k) { pc = if suc k == t.total_packet_number then waited else increment }
        ≡ record (at_tail k) { pc = if b then waited else increment }
  at_tail_branch k e = ap (λ b. record (at_tail k) { pc = if b then waited else increment }) e

  at_waited_step :
      (k : ℕ)
      → sender_step disk (raws k) (record (at_tail k) { pc = waited })
        ≡ record (at_tail k) { pc = increment }
  unfolding sender_step step_at take_rtx
  at_waited_step k = ground (arith, v)

  at_increment_step :
      (k : ℕ)
      → IsDue k
      → sender_step disk (raws k) (record (at_tail k) { pc = increment }) ≡ at_test (suc k)
  unfolding sender_step step_at
  at_increment_step k h =
      ap (λ n. record (at_tail k) { tran = record t { packet_sequence_number = n }; pc = test })
        (omega (arith, v))

  to_tail :
      (n k : ℕ) {u : Sender}
      → IsDue k
      → run n disk raws (at_tail k) ≡ u
      → run (suc n) disk raws (at_prepare k) ≡ u
  to_tail n k h r = step_then disk raws n (at_prepare k) (at_prepare_step k h) r

  to_prepare :
      (n k : ℕ) {u : Sender}
      → IsDue k
      → run n disk raws (at_prepare k) ≡ u
      → run (suc (suc n)) disk raws (at_test k) ≡ u
  to_prepare n k h r =
      step_then disk raws (suc n) (at_test k) (at_test_step k h)
        (step_then disk raws n (record (at_test k) { pc = check }) (at_check_step k) r)

  to_next :
      (n k : ℕ) {u : Sender}
      → IsDue k
      → run n disk raws (at_test (suc k)) ≡ u
      → run (suc n) disk raws (record (at_tail k) { pc = increment }) ≡ u
  to_next n k h r =
      step_then disk raws n (record (at_tail k) { pc = increment }) (at_increment_step k h) r

  round_middle :
      (n k : ℕ) {u : Sender}
      → IsDue k
      → IsDue (suc k)
      → run n disk raws (at_prepare (suc k)) ≡ u
      → run (suc (suc (suc (suc (suc n))))) disk raws (at_prepare k) ≡ u
  round_middle n k h h' r = to_tail (suc (suc (suc (suc n)))) k h (
      step_then disk raws (suc (suc (suc n))) (at_tail k)
        (at_tail_step k h ∙ at_tail_branch k (ne→== (suc k) t.total_packet_number (omega arith)))
        (to_next (suc (suc n)) k h (to_prepare n (suc k) h' r)))

  at_end_step :
      sender_step disk (raws t.total_packet_number) (at_test t.total_packet_number)
      ≡ (exits_with t c (sofar t.total_packet_number))
  unfolding sender_step step_at
  at_end_step = rw (ltb-false t.total_packet_number t.total_packet_number (omega arith)) refl

  -- The steps that the last packets take.
  abbrev pub budget : ℕ → ℕ
  budget zero = 5
  budget (suc j) = suc (suc (suc (suc (suc (budget j)))))

  pub budget_lem : (j : ℕ) → budget j ≡ 5 * j + 5
  budget_lem zero = refl
  budget_lem (suc j) = omega (arith, budget_lem j)

  -- From the preparation of packet k on, packets k to the last are sent.
  pub run_loop :
      (j k : ℕ)
      → first ≤ k
      → k + suc j ≡ t.total_packet_number
      → run (budget j) disk raws (at_prepare k) ≡ exits_with t c (sofar t.total_packet_number)
  run_loop zero k f e =
      let h : IsDue k = omega arith in
      to_tail 4 k h (
        step_then disk raws 3 (at_tail k)
          (at_tail_step k h ∙ at_tail_branch k (eq→== (suc k) t.total_packet_number (omega arith)))
          (step_then disk raws 2 (record (at_tail k) { pc = waited }) (at_waited_step k)
            (to_next 1 k h (
              ap (λ n. run 1 disk raws (at_test n)) (omega arith)
              ∙ step_then disk raws 0 (at_test t.total_packet_number) at_end_step
                  (run_none disk raws (exits_with t c (sofar t.total_packet_number)))))))
  run_loop (suc j) k f e =
      round_middle (budget j) k (omega arith) (omega arith)
        (run_loop j (suc k) (omega arith) (omega arith))

  -- The same from the loop's test on.
  pub run_test :
      (j k : ℕ)
      → first ≤ k
      → k + suc j ≡ t.total_packet_number
      → run (suc (suc (budget j))) disk raws (at_test k)
        ≡ exits_with t c (sofar t.total_packet_number)
  run_test j k f e = to_prepare (budget j) k (omega arith) (run_loop j k f e)
