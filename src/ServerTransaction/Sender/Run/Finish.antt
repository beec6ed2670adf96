-- ===== src/ServerTransaction/Sender/Run/Finish.antt =====
-- The sender without a cancellation: it sends the whole file, in order, and ends; and after a
-- request it sends the file once more from the requested packet on.
use trftp.Base.{
  ℕ, zero, suc, ◌+◌, ◌*◌, ◌-◌, ◌≤◌, ◌<◌, ◌≡◌, refl, sym, ap, ◌∙◌, arith, some, List, ◌∷◌, u32_max,
  ltb, lt→ltb, ltb-false, if◌then◌else◌,
}
use trftp.Message.{TrftpMessage}
use trftp.ServerTransaction.{Disk, Datagram, ServerTransaction}
use trftp.ServerTransaction.Sender.Steps.{step_then}
use trftp.ServerTransaction.Sender.{
  check, prepare, Sender, sender_step, step_at, take_rtx, open_step, data_packet, run,
}
use trftp.ServerTransaction.Sender.Run.{IsReady, chunk, packets, started, exits_with, finished}
use trftp.ServerTransaction.Sender.Run.Loop.{at_test, budget, budget_lem, run_loop, run_test}

module _ (disk : Disk) (raws : ℕ → TrftpMessage) (t : ServerTransaction) (c : List ℕ)
    (v : IsReady t c) where
  abbrev steps_of : ℕ → ℕ
  steps_of = budget disk raws t c v 0 (packets t raws c) (λ k f h. refl)

  budget_lem_of : (j : ℕ) → steps_of j ≡ 5 * j + 5
  budget_lem_of = budget_lem disk raws t c v 0 (packets t raws c) (λ k f h. refl)

  open_file_step :
      disk t.file_path ≡ some c
      → (psn : ℕ)
      → sender_step disk (raws psn) (started t)
        ≡ at_test disk raws t c v 0 (packets t raws c) (λ k f h. refl) 0
  unfolding sender_step step_at open_step
  open_file_step e psn = rw (e, open_step) refl

  -- Left alone, the thread opens the file, sends every packet once and in order, counts past the
  -- last one, and ends: five steps for a packet and three more are enough.
  pub run-finished :
      disk t.file_path ≡ some c
      → run (5 * t.total_packet_number + 3) disk raws (started t) ≡ finished raws t c
  run-finished e =
      let j = t.total_packet_number - 1 in
      ap (λ n. run n disk raws (started t)) (omega (arith, v, budget_lem_of j))
      ∙ step_then disk raws (suc (suc (steps_of j))) (started t)
          (open_file_step e t.packet_sequence_number)
          (run_test disk raws t c v 0 (packets t raws c) (λ k f h. refl) j 0 (omega arith)
            (omega (arith, v)))

-- What has been sent before packet k, if packets from `first` on are sent after ds.
abbrev pub resends :
    ServerTransaction → (ℕ → TrftpMessage) → List ℕ → List Datagram → ℕ → ℕ → List Datagram
resends t raws c ds first zero = ds
resends t raws c ds first (suc k) =
    let rest = resends t raws c ds first k in
    if ltb k first then ds else data_packet t (raws k) k (chunk c k) ∷ rest

pub resends-grow :
    (t : ServerTransaction) (raws : ℕ → TrftpMessage) (c : List ℕ) (ds : List Datagram)
    (first k : ℕ)
    → first ≤ k
    → resends t raws c ds first (suc k)
      ≡ data_packet t (raws k) k (chunk c k) ∷ resends t raws c ds first k
resends-grow t raws c ds first k h = rw (ltb-false k first h) refl

pub resends-first :
    (t : ServerTransaction) (raws : ℕ → TrftpMessage) (c : List ℕ) (ds : List Datagram) (k : ℕ)
    → resends t raws c ds k k ≡ ds
resends-first t raws c ds zero = refl
resends-first t raws c ds (suc k) = rw (lt→ltb k (suc k) (omega arith)) refl

-- At the top of the loop's body, with a request for packet k.
abbrev pub asked_for : ServerTransaction → List ℕ → List Datagram → ℕ → ℕ → Sender
asked_for t c ds psn k = record {
  tran = record t { packet_sequence_number = psn; retransmit_psn = k };
  ifs = c;
  pc = check;
  sends = ds;
}

asked_step :
    (disk : Disk) (raw : TrftpMessage) (t : ServerTransaction) (c : List ℕ) (ds : List Datagram)
    (psn k : ℕ)
    → IsReady t c
    → k < u32_max
    → sender_step disk raw (asked_for t c ds psn k)
      ≡ record { tran = record t { packet_sequence_number = k }; ifs = c; pc = prepare; sends = ds }
unfolding sender_step step_at take_rtx
asked_step disk raw t c ds psn k v h = ground (arith, v)

-- A request for packet k that the thread finds at the top of its loop's body takes it back: it sends
-- packets k to the last once more, in order, behind all that it has sent before, and ends; five
-- steps for each of these packets and one more are enough.
pub run-resends :
    (disk : Disk) (raws : ℕ → TrftpMessage) (t : ServerTransaction) (c : List ℕ)
    (ds : List Datagram) (psn k : ℕ)
    → IsReady t c
    → k < t.total_packet_number
    → run (5 * (t.total_packet_number - k) + 1) disk raws (asked_for t c ds psn k)
      ≡ exits_with t c (resends t raws c ds k t.total_packet_number)
run-resends disk raws t c ds psn k v h =
    let j = t.total_packet_number - suc k in
    let grows =
      λ (i : ℕ) (f : k ≤ i) (l : i < t.total_packet_number). resends-grow t raws c ds k i f in
    let s = asked_for t c ds psn k in
    let loop =
      run_loop disk raws t c v k (resends t raws c ds k) grows j k (omega arith) (omega arith) in
    ap (λ n. run n disk raws s)
      (omega (arith, budget_lem disk raws t c v k (resends t raws c ds k) grows j))
    ∙ step_then disk raws (budget disk raws t c v k (resends t raws c ds k) grows j) s
        (asked_step disk (raws psn) t c ds psn k v (omega (arith, v))
          ∙ ap
              (λ l. record {
                tran = record t { packet_sequence_number = k };
                ifs = c;
                pc = prepare;
                sends = l;
              })
              (sym (resends-first t raws c ds k)))
        loop
