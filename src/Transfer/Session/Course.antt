-- ===== src/Transfer/Session/Course.antt =====
-- `StartFileTransfer` in a session: its waits see the client's messages, and it returns FIN.
use trftp.Base.{
  arith, ℕ, ◌+◌, ◌*◌, ◌≡◌, refl, ap, ◌∙◌, Bool, true, false, some, List, [], ◌∷◌, ◌++◌,
  if◌then◌else◌, if-true,
}
use trftp.Message.{MessageId, same, u32_bytes, ntf, chk, info, rdy, data', done, fin}
use trftp.Wire.{received}
use trftp.ServerTransaction.{Address, Disk, Datagram, ServerTransaction}
use trftp.ServerTransaction
use trftp.ServerTransaction.Sender.{Sender, exited, run}
use trftp.ServerTransaction.Sender.Run.{started, finished, packets}
use trftp.ServerTransaction.Sender.Run.Finish.{run-finished}
use trftp.ClientTransaction.{
  ClientTransaction, Effect, sends, starts_thread, joins_thread, file_received, Result,
}
use trftp.Server.{Event, receives, counts, apply, Window, wait_for_status, Course, drive}
use trftp.Server.Answers.{wait_reported, wait_moved, drive-stages, answered}
use trftp.Transfer.{receive_alive}
use trftp.Transfer.Data.{IsCarried}
use trftp.Transfer.File.{receive_alive-all}
use trftp.Transfer.Done.{report_taken}
use trftp.Transfer.Session.{Setup, is_found, opens, hears, reaches, session}
use trftp.Transfer.Session.Handshake.{notified, chk_of, rdy_of, takes-chk, takes-rdy}
use trftp.Transfer.Session.Complete.{session-completes}
use trftp.Transfer.Session.Prepared.{
  IsWired, is_found_wired, IsFresh, told, prepared, sends_data, ready_client, begun, agreed,
  reaches-begun, reaches-agreed, opens-begun, hears-agreed, sends_data-IsReady,
  ready_client-HasReceived,
}

-- What the client sends, as events of a wait of the server, each of which wakes the waiting thread:
-- a message that the listener finds no transaction for is none.
abbrev pub arrivals : Setup → List Effect → List (Event × Bool)
arrivals x [] = []
arrivals x (sends d ∷ es) =
    let rest = arrivals x es in
    if is_found x then (receives (received (x.stales 1) d) d.len x.client, true) ∷ rest else rest
arrivals x (_ ∷ es) = arrivals x es

-- A wait in which these events come.
abbrev pub window : List (Event × Bool) → Window
window es = record { before = []; during = es }

-- The waits of `StartFileTransfer` in a session, from the client's effects in each of them and the
-- counters at which the sending thread ends.
abbrev waits : Setup → List Effect → List Effect → Sender → List Effect → Course
waits x e1 e2 w e3 = record {
  notified = window (arrivals x e1);
  informed = window (arrivals x e2);
  sending =
      window ((counts w.tran.packet_sequence_number w.tran.retransmit_psn, false) ∷ arrivals x e3);
  raw = x.raws 0;
}

-- The course of the call: what the client's handlers and the sending thread do in a session.
pub course : Disk → Setup → ServerTransaction → ClientTransaction → Course
course disk x s u =
    let (s1, o1) = ServerTransaction.send_message ntf (x.raws 0) s in
    let (u1, e1) = opens (x.opening 0) (x.stales 0) x.server o1 u in
    let s2 = reaches x e1 s1 in
    let (s3, o3) = ServerTransaction.send_message info (x.raws 0) s2 in
    let (u2, e2) = hears (x.opening 1) (x.stales 0) x.server o3 u1 in
    let s4 = reaches x e2 s3 in
    let (s5, o5) = ServerTransaction.send_message data' (x.raws 0) s4 in
    let w = run (5 * s.total_packet_number + 3) disk x.raws (started s5) in
    waits x e1 e2 w (receive_alive x.envs x.stales x.server w.sends u2).1

arrivals-one :
    (x : Setup) (d : Datagram)
    → x.inet_ntoa x.client.ip ≡ x.ip
    → arrivals x (sends d ∷ []) ≡ (receives (received (x.stales 1) d) d.len x.client, true) ∷ []
arrivals-one x d e = if-true _ _ (is_found_wired x e)

arrivals-begun :
    (x : Setup) (d : Datagram) (b : Bool)
    → x.inet_ntoa x.client.ip ≡ x.ip
    → arrivals x ((if b then joins_thread ∷ [] else []) ++ (starts_thread ∷ sends d ∷ []))
      ≡ (receives (received (x.stales 1) d) d.len x.client, true) ∷ []
arrivals-begun x d true e = arrivals-one x d e
arrivals-begun x d false e = arrivals-one x d e

-- The receipt of one message of the client.
abbrev reply : Setup → Datagram → Event
reply x d = receives (received (x.stales 1) d) d.len x.client

module _ (x : Setup) (s : ServerTransaction) (c : List ℕ) (u : ClientTransaction) (r : IsFresh s c)
    (f : IsCarried c) (w : IsWired x u) (disk : Disk) where
  -- The rest of the course, from each point on.
  abbrev from_thread : List Effect → List Effect → ClientTransaction → Sender → Course
  from_thread e1 e2 v w = waits x e1 e2 w (receive_alive x.envs x.stales x.server w.sends v).1

  abbrev from_data : List Effect → List Effect → ServerTransaction → ClientTransaction → Course
  from_data e1 e2 t v =
      let (s5, o5) = ServerTransaction.send_message data' (x.raws 0) t in
      from_thread e1 e2 v (run (5 * s.total_packet_number + 3) disk x.raws (started s5))

  abbrev from_hears : List Effect → ServerTransaction → Result → Course
  from_hears e1 t y = from_data e1 y.1 (reaches x y.1 t) y.0

  abbrev from_info : List Effect → ClientTransaction → ServerTransaction → Course
  from_info e1 v t =
      let (s3, o3) = ServerTransaction.send_message info (x.raws 0) t in
      from_hears e1 s3 (hears (x.opening 1) (x.stales 0) x.server o3 v)

  abbrev from_opens : Result → Course
  from_opens y = from_info y.1 y.0 (reaches x y.1 (record s { status = ntf }))

  course-waits :
      (y : Result)
      → (x.opening 1).open_ok ≡ true
      → disk s.file_path ≡ some c
      → receive_alive x.envs x.stales x.server
          (packets (sends_data x s u) x.raws c s.total_packet_number)
          (ready_client x s u)
        ≡ y
      → course disk x s u
        ≡ waits x (begun x u) (agreed x s u) (finished x.raws (sends_data x s u) c) y.1
  unfolding course ServerTransaction.send_message
  course-waits y o there e =
      ap from_opens (opens-begun x s c u r f w)
      ∙ ap (from_info (begun x u) (notified s x.server u)) (reaches-begun x s u w.known)
      ∙ ap (from_hears (begun x u) (record (told x s u) { status = info }))
          (hears-agreed x s c u r f w o)
      ∙ ap (λ t. from_data (begun x u) (agreed x s u) t (ready_client x s u))
          (reaches-agreed x s u w.known)
      ∙ ap (from_thread (begun x u) (agreed x s u) (ready_client x s u))
          (run-finished disk x.raws (sends_data x s u) c (sends_data-IsReady x s c u r f w) there)
      ∙ ap (λ z. waits x (begun x u) (agreed x s u) (finished x.raws (sends_data x s u) c) z.1) e

  chk_applied :
      apply (reply x (chk_of (x.opening 0) x.server u)) (record s { status = ntf }) ≡ told x s u
  unfolding apply
  chk_applied =
      takes-chk (x.stales 1) (x.opening 0).raw (u32_bytes u.cur_file_version) x.server x.client
        (record s { status = ntf }) refl refl

  rdy_applied :
      apply
        (reply x (rdy_of (x.opening 1) (ready_client x s u)))
        (record (told x s u) { status = info })
      ≡ prepared x s u
  unfolding apply
  rdy_applied =
      let v = ready_client x s u in
      takes-rdy (x.stales 1) (x.opening 1).raw
        (u32_bytes v.new_file_version
          ++ (u32_bytes v.new_file_size ++ u32_bytes v.inter_packet_gap))
        v.server_address x.client (record (told x s u) { status = info }) refl refl

  -- A reply that moves the status, and the state that it leads to.
  moved :
      (d : Datagram) (t t' : ServerTransaction) (old new : MessageId)
      → t.status ≡ old
      → apply (reply x d) t ≡ t'
      → t'.status ≡ new
      → same new old ≡ false
      → wait_for_status (answered (reply x d)) t ≡ (some new, t')
  moved d t t' old new before e after differs =
      wait_moved (reply x d) t old new before (ap (λ y. y.status) e ∙ after) differs
      ∙ ap (λ y. (some new, y)) e

  drive-waits :
      (d : Datagram)
      → (ServerTransaction.on_receive
          (received (x.stales 1) d)
          d.len
          x.client
          (finished x.raws (sends_data x s u) c).tran).status
        ≡ done
      → (drive
          (waits x (begun x u) (agreed x s u) (finished x.raws (sends_data x s u) c) (sends d ∷ []))
          s).0
        ≡ fin
  unfolding ServerTransaction.send_message apply
  drive-waits d accepted =
      let w' = finished x.raws (sends_data x s u) c in
      let chk_msg = chk_of (x.opening 0) x.server u in
      let rdy_msg = rdy_of (x.opening 1) (ready_client x s u) in
      drive-stages (waits x (begun x u) (agreed x s u) w' (sends d ∷ [])) s (told x s u)
        (prepared x s u)
        (ap (λ l. wait_for_status (window l) (record s { status = ntf }))
            (arrivals-begun x chk_msg u.thread w.known)
          ∙ moved chk_msg (record s { status = ntf }) (told x s u) ntf chk refl chk_applied refl
              refl)
        (ap (λ l. wait_for_status (window l) (record (told x s u) { status = info }))
            (arrivals-one x rdy_msg w.known)
          ∙ moved rdy_msg (record (told x s u) { status = info }) (prepared x s u) info rdy refl
              rdy_applied refl refl)
        (ap
            (λ l.
              (wait_for_status
                (window ((counts w'.tran.packet_sequence_number w'.tran.retransmit_psn, false) ∷ l))
                (sends_data x s u)).0)
            (arrivals-one x d w.known)
          ∙ wait_reported w'.tran.packet_sequence_number w'.tran.retransmit_psn (reply x d)
              (sends_data x s u) refl accepted)

  -- The waits of the call see the client's messages of the session.
  pub drive-session :
      (x.opening 1).open_ok ≡ true
      → ((k : ℕ) → (x.envs k).write_ok ≡ true)
      → disk s.file_path ≡ some c
      → let e = session disk x s u in
        ((drive (course disk x s u) s).0 ≡ fin)
        × (e.thread.pc ≡ exited)
        × (e.client.new_file ≡ some c)
        × (e.client.status ≡ fin)
        × (e.client.is_active ≡ false)
        × (e.effects ≡ (if u.has_client then file_received s.new_file_version ∷ [] else []))
  drive-session o writable there =
      let all =
        receive_alive-all (sends_data x s u) c (sends_data-IsReady x s c u r f w) f x.envs x.stales
          x.raws x.server writable s.total_packet_number (ready_client x s u) (omega arith)
          (ready_client-HasReceived x s c u r f w) refl in
      let (v, d, whole, rep, accepted) =
        report_taken x.raws x.stales x.envs x.server (sends_data x s u) c (ready_client x s u)
          (x.stales 1) x.client writable (sends_data-IsReady x s c u r f w) f r.checksum r.version
          (ready_client-HasReceived x s c u r f w) refl in
      let (ends, taken, server, client, alive, stored, delivered) =
        session-completes x s c u r f w disk o writable there in
      (
        ap (λ y. (drive y s).0) (course-waits _ o there (all ∙ whole)) ∙ drive-waits d accepted,
        ends,
        stored,
        client,
        alive,
        delivered,
      )
