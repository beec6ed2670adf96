-- ===== src/Transfer/Receiver/Refinement.antt =====
-- `ClientTransaction::OnReceive` on the packets of a file refines the abstract receiver.
use mathlib.Core.Path.{ap₂}
use trftp.Base.{
  ℕ, ◌<◌, ◌≡◌, refl, ◌∙◌, arith, Bool-cases, inl, inr, true, false, if◌then◌else◌, if-true,
  if-false, sym, subst, List, [], ◌∷◌, ◌++◌,
}
use trftp.ServerTransaction.{ServerTransaction}
use trftp.ServerTransaction.Sender.Run.{IsReady}
use trftp.ClientTransaction.{ClientTransaction, Result, after}
use trftp.ClientTransaction.Quiet.{IsQuiet, on_receive-Keeps}
use trftp.Transfer.Data.{IsCarried}
use trftp.Transfer.Receiver.{
  Arrival, Reply, receive_one, View, holding, complete, cancelled, has, has_all, gave_up,
  take_packet, take_packets, Shows, Refines, replies-append,
}
use trftp.Transfer.Receiver.Steps.{receive_one-Refines}

abbrev pub psns : List Arrival → List ℕ
psns [] = []
psns (a ∷ rest) = a.psn ∷ psns rest

module _ (s : ServerTransaction) (c : List ℕ) where
  -- The receiving thread over a course of packets, in the order of their arrival: it handles them
  -- while the transaction is alive.
  pub receive_each : List Arrival → ClientTransaction → Result
  receive_each [] t = (t, [])
  receive_each (a ∷ rest) t =
      let (u, es) = receive_one s c a t in
      let handled = after es (receive_each rest u) in if t.is_active then handled else (t, [])

  -- Packets of the file, with a disk that can be written.
  abbrev pub AreArrivals : List Arrival → Type 0
  AreArrivals [] = Unit {0}
  AreArrivals (a ∷ rest) =
      (a.psn < s.total_packet_number) × (a.env.write_ok ≡ true) × AreArrivals rest

-- A client that shows a receiver that has not cancelled is alive.
abbrev pub IsAlive : View → ClientTransaction → Type 0
IsAlive cancelled t = Unit {0}
IsAlive v t = t.is_active ≡ true

-- It stays alive as long as that is so.
Shows-IsAlive :
    (c : List ℕ) (n : ℕ) (u : ClientTransaction) (v : View)
    → Shows c n u v
    → (u.is_active ≡ false → IsQuiet u)
    → IsAlive v u
Shows-IsAlive c n u (holding k) (has _ lt r) q = elim (Bool-cases u.is_active) [
  | inl alive ↦ alive
  | inr dead ↦ absurd (ground (arith, q dead, r))
]
Shows-IsAlive c n u complete (has_all d e o) q = elim (Bool-cases u.is_active) [
  | inl alive ↦ alive
  | inr dead ↦ absurd ((q dead).2 d)
]
Shows-IsAlive c n u cancelled w q = tt

module _ (s : ServerTransaction) (c : List ℕ) (r : IsReady s c) (f : IsCarried c) where
  -- One packet at a client that is alive.
  receive_one-IsAlive :
      (a : Arrival) (t : ClientTransaction) (v : View)
      → a.psn < s.total_packet_number
      → a.env.write_ok ≡ true
      → Shows c s.total_packet_number t v
      → t.is_active ≡ true
      → IsAlive (take_packet s.total_packet_number v a.psn).0 (receive_one s c a t).0
  receive_one-IsAlive a t v h ok w alive =
      let one = receive_one-Refines s c r f a t v h ok w in
      Shows-IsAlive c s.total_packet_number (receive_one s c a t).0 _ one.0
        ((on_receive-Keeps a.env _ _ a.addr t).settles alive)

each_alive :
    (s : ServerTransaction) (c : List ℕ) (a : Arrival) (l : List Arrival) (t : ClientTransaction)
    → t.is_active ≡ true
    → receive_each s c (a ∷ l) t
      ≡ after (receive_one s c a t).1 (receive_each s c l (receive_one s c a t).0)
unfolding receive_each
each_alive s c a l t alive = if-true _ _ alive

each_dead :
    (s : ServerTransaction) (c : List ℕ) (a : Arrival) (l : List Arrival) (t : ClientTransaction)
    → t.is_active ≡ false
    → receive_each s c (a ∷ l) t ≡ (t, [])
unfolding receive_each
each_dead s c a l t dead = if-false _ _ dead

-- A packet, and what comes behind it.
both :
    (s : ServerTransaction) (c : List ℕ) (a : Arrival) (l : List Arrival) (t : ClientTransaction)
    (n : ℕ) (w w' : View × List Reply)
    → t.is_active ≡ true
    → Refines c n (receive_one s c a t) w
    → Refines c n (receive_each s c l (receive_one s c a t).0) w'
    → Refines c n (receive_each s c (a ∷ l) t) (w'.0, w.1 ++ w'.1)
both s c a l t n w w' alive one rest =
    subst (λ (x : Result). Refines c n x (w'.0, w.1 ++ w'.1)) (sym (each_alive s c a l t alive))
      (
        rest.0,
        replies-append (receive_one s c a t).1 (receive_each s c l (receive_one s c a t).0).1
            ∙ ap₂ (λ x y. x ++ y) one.1 rest.1,
      )

-- Whatever packets of a file of two packets at least, the last one not full, reach a client's
-- receiving thread, the client being in one of the states of the abstract receiver, and alive unless
-- that has cancelled, in any order, some lost and some repeated, the disk being writable: its state
-- and its replies are those of the abstract receiver, which takes no packet once it has cancelled.
-- While that holds k packets, the client has the file's first k packets; when it is complete, the
-- whole file.
pub receive_each-Refines :
    (s : ServerTransaction) (c : List ℕ) (r : IsReady s c) (f : IsCarried c) (l : List Arrival)
    (t : ClientTransaction) (v : View)
    → AreArrivals s c l
    → Shows c s.total_packet_number t v
    → IsAlive v t
    → Refines c s.total_packet_number
        (receive_each s c l t)
        (take_packets s.total_packet_number v (psns l))
unfolding receive_each take_packets
receive_each-Refines s c r f [] t v h w alive = (w, refl)
receive_each-Refines s c r f (a ∷ l) t cancelled h (gave_up d e) alive =
    subst (λ (x : Result). Refines c s.total_packet_number x (cancelled, []))
      (sym (each_dead s c a l t e)) (gave_up d e, refl)
receive_each-Refines s c r f (a ∷ l) t (holding k) (h, ok, hs) w alive =
    let v = holding k in
    let n = s.total_packet_number in
    let one = receive_one-Refines s c r f a t v h ok w in
    let rest =
      receive_each-Refines s c r f l (receive_one s c a t).0 (take_packet n v a.psn).0 hs one.0
        (receive_one-IsAlive s c r f a t v h ok w alive) in
    both s c a l t n (take_packet n v a.psn) (take_packets n (take_packet n v a.psn).0 (psns l))
      alive one rest
receive_each-Refines s c r f (a ∷ l) t complete (h, ok, hs) w alive =
    let v = complete in
    let n = s.total_packet_number in
    let one = receive_one-Refines s c r f a t v h ok w in
    let rest =
      receive_each-Refines s c r f l (receive_one s c a t).0 (take_packet n v a.psn).0 hs one.0
        (receive_one-IsAlive s c r f a t v h ok w alive) in
    both s c a l t n (take_packet n v a.psn) (take_packets n (take_packet n v a.psn).0 (psns l))
      alive one rest
