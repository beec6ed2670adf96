-- ===== src/Transfer/Recovery.antt =====
-- The repair of a loss: the server's thread goes back to the packet that the client asks for, and
-- the client completes its file.
use mathlib.Core.Path.{ap₂}
use trftp.Base.{
  ℕ, zero, suc, ◌+◌, ◌*◌, ◌-◌, ◌≤◌, ◌<◌, ◌≡◌, refl, sym, ap, ◌∙◌, arith, true, List, [], ◌∷◌, ◌++◌,
  length, subst,
}
use trftp.Message.{TrftpMessage}
use trftp.ServerTransaction.{Address, Disk, Datagram, ServerTransaction}
use trftp.ServerTransaction.Sender.{exited, run}
use trftp.ServerTransaction.Sender.Run.{IsReady}
use trftp.ServerTransaction.Sender.Run.Finish.{
  resends, asked_for, run-resends, resends-grow, resends-first,
}
use trftp.ClientTransaction.{ClientTransaction, Env, Result, after}
use trftp.Transfer.{receive_all}
use trftp.Transfer.Data.{IsCarried}
use trftp.Transfer.Receiver.{
  holding, complete, reports, take_packet, take_next, take_last, Arrival, receive_one, Shows,
  Refines, replies-append,
}
use trftp.Transfer.Receiver.Steps.{receive_one-Refines}

resends-append :
    (s : ServerTransaction) (raws : ℕ → TrftpMessage) (c : List ℕ) (ds : List Datagram)
    (first k : ℕ)
    → resends s raws c ds first k ≡ resends s raws c [] first k ++ ds
resends-append s raws c ds first zero = refl
resends-append s raws c ds first (suc k) = ground (arith, resends-append s raws c ds first k)

module _ (s : ServerTransaction) (c : List ℕ) (r : IsReady s c) (f : IsCarried c) (envs : ℕ → Env)
    (stales raws : ℕ → TrftpMessage) (addr : Address)
    (writable : (i : ℕ) → (envs i).write_ok ≡ true) (k : ℕ) (t : ClientTransaction)
    (v : Shows c s.total_packet_number t (holding k)) where
  abbrev resent : ℕ → List Datagram
  resent i = resends s raws c [] k i

  abbrev result : ℕ → Result
  result i = receive_all envs stales addr (resent i) t

  -- The arrival of packet i, behind the resent ones before it.
  abbrev arrival : ℕ → Arrival
  arrival i = record {
    psn = i;
    env = envs (length (resent i));
    stale = stales (length (resent i));
    raw = raws i;
    addr = addr;
  }

  result-suc :
      (i : ℕ)
      → k ≤ i
      → result (suc i) ≡ after (result i).1 (receive_one s c (arrival i) (result i).0)
  unfolding receive_all
  result-suc i h = ap (λ l. receive_all envs stales addr l t) (resends-grow s raws c [] k i h)

  one_more :
      (i : ℕ)
      → k ≤ i
      → i < s.total_packet_number
      → Refines c s.total_packet_number (result i) (holding i, [])
      → Refines c s.total_packet_number
          (result (suc i))
          (take_packet s.total_packet_number (holding i) i)
  one_more i h lt (shows, silent) =
      let one =
        receive_one-Refines s c r f (arrival i) (result i).0 (holding i) lt
          (writable (length (resent i))) shows in
      subst
        (λ (x : Result).
          Refines c s.total_packet_number x (take_packet s.total_packet_number (holding i) i))
        (sym (result-suc i h))
        (
          one.0,
          replies-append (result i).1 (receive_one s c (arrival i) (result i).0).1
              ∙ ap₂ (λ x y. x ++ y) silent one.1,
        )

  nothing_yet : Refines c s.total_packet_number (receive_all envs stales addr [] t) (holding k, [])
  unfolding receive_all
  nothing_yet = (v, refl)

  progress :
      (d : ℕ)
      → k + d < s.total_packet_number
      → Refines c s.total_packet_number (result (k + d)) (holding (k + d), [])
  progress zero h =
      subst (λ i. Refines c s.total_packet_number (result i) (holding i, [])) (omega arith)
        (subst
          (λ l. Refines c s.total_packet_number (receive_all envs stales addr l t) (holding k, []))
          (sym (resends-first s raws c [] k)) nothing_yet)
  progress (suc d) h =
      subst (λ i. Refines c s.total_packet_number (result i) (holding i, [])) (omega arith)
        (subst (Refines c s.total_packet_number (result (suc (k + d))))
          (take_next s.total_packet_number (k + d) (omega arith))
          (one_more (k + d) (omega arith) (omega arith) (progress d (omega arith))))

  completes :
      k < s.total_packet_number
      → Refines c s.total_packet_number (result s.total_packet_number) (complete, reports ∷ [])
  completes h =
      let d = s.total_packet_number - suc k in
      let e : suc (k + d) ≡ s.total_packet_number = omega arith in
      subst (λ n. Refines c s.total_packet_number (result n) (complete, reports ∷ [])) e
        (subst (Refines c s.total_packet_number (result (suc (k + d))))
          (take_last s.total_packet_number (k + d) (omega arith))
          (one_more (k + d) (omega arith) (omega arith) (progress d (omega arith))))

  -- A client that has the first k packets of the file, and whose request for packet k the sending
  -- thread finds at the top of its loop's body, wherever it stands: the thread goes back, sends the
  -- packets from k on, nothing else, and ends; a client that receives these and nothing else has the
  -- whole file then and has sent one reply, its report.
  pub request_repairs :
      (disk : Disk) (ds : List Datagram) (psn : ℕ)
      → k < s.total_packet_number
      → let w = run (5 * (s.total_packet_number - k) + 1) disk raws (asked_for s c ds psn k) in
        (w.pc ≡ exited)
        × (w.sends ≡ resent s.total_packet_number ++ ds)
        × Refines c s.total_packet_number (result s.total_packet_number) (complete, reports ∷ [])
  request_repairs disk ds psn h =
      let e = run-resends disk raws s c ds psn k r h in
      (
        ap (λ w. w.pc) e,
        ap (λ w. w.sends) e ∙ resends-append s raws c ds k s.total_packet_number,
        completes h,
      )
