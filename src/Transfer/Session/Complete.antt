-- ===== src/Transfer/Session/Complete.antt =====
-- A session without losses carries the file.
use mathlib.Core.Path.{ap₂}
use trftp.Base.{
  arith, ℕ, ◌+◌, ◌*◌, ◌≡◌, refl, ap, ◌∙◌, true, false, some, List, [], ◌∷◌, if◌then◌else◌,
}
use trftp.Message.{data', done, fin}
use trftp.ServerTransaction.{Address, Disk, Datagram, ServerTransaction, Outcome, clamp_gap}
use trftp.ServerTransaction
use trftp.ServerTransaction.Sender.{Sender, exited, run}
use trftp.ServerTransaction.Sender.Run.{started, finished, packets}
use trftp.ServerTransaction.Sender.Run.Finish.{run-finished}
use trftp.ClientTransaction.{ClientTransaction, sends, file_received, Result}
use trftp.Transfer.{receive_alive}
use trftp.Transfer.Data.{IsCarried}
use trftp.Transfer.File.{receive_alive-all}
use trftp.Transfer.Done.{report_taken}
use trftp.Transfer.Session.{Setup, hears, reaches, Ended, session}
use trftp.Transfer.Session.Handshake.{hears-fin}
use trftp.Transfer.Session.Prepared.{
  reaches-one, IsWired, IsFresh, sends_data, ready_client, handshake-prepared, sends_data-IsReady,
  ready_client-HasReceived,
}

module _ (x : Setup) (s : ServerTransaction) (c : List ℕ) (u : ClientTransaction) (r : IsFresh s c)
    (f : IsCarried c) (w : IsWired x u) where
  abbrev s5 : ServerTransaction
  s5 = sends_data x s u

  abbrev u2 : ClientTransaction
  u2 = ready_client x s u

  -- The rest of a session, from each point on.
  abbrev behind_fin : Sender → ServerTransaction → ClientTransaction → Ended
  behind_fin w s6 v =
      let (s7, o7) = ServerTransaction.send_message fin (x.raws 0) s6 in
      let (u4, e4) = hears (x.opening 2) (x.stales 0) x.server o7 v in
      record { server = s7; reported = s6.status; thread = w; client = u4; effects = e4 }

  abbrev behind_report : Sender → Result → Ended
  behind_report w y = behind_fin w (reaches x y.1 w.tran) y.0

  abbrev behind_thread : Sender → ClientTransaction → Ended
  behind_thread w v = behind_report w (receive_alive x.envs x.stales x.server w.sends v)

  abbrev behind_handshake : Disk → ServerTransaction × ClientTransaction → Ended
  behind_handshake disk p =
      let (t, o) = ServerTransaction.send_message data' (x.raws 0) p.0 in
      behind_thread (run (5 * s.total_packet_number + 3) disk x.raws (started t)) p.1

  to_report :
      (disk : Disk) (y : Result)
      → (x.opening 1).open_ok ≡ true
      → disk s.file_path ≡ some c
      → receive_alive x.envs x.stales x.server (packets s5 x.raws c s5.total_packet_number) u2 ≡ y
      → session disk x s u ≡ behind_report (finished x.raws s5 c) y
  unfolding session ServerTransaction.send_message
  to_report disk y o there e =
      ap (behind_handshake disk) (handshake-prepared x s c u r f w o)
      ∙ ap (λ w. behind_thread w u2)
          (run-finished disk x.raws s5 c (sends_data-IsReady x s c u r f w) there)
      ∙ ap (behind_report (finished x.raws s5 c)) e

  behind_fin-eq :
      (w : Sender) (s6 : ServerTransaction) (v : ClientTransaction)
      → v.is_active ≡ true
      → v.status ≡ done
      → behind_fin w s6 v ≡ record {
        server = record s6 { status = fin };
        reported = s6.status;
        thread = w;
        client = record v { server_address = x.server; status = fin; is_active = false };
        effects = if v.has_client then file_received v.new_file_version ∷ [] else [];
      }
  unfolding ServerTransaction.send_message
  behind_fin-eq w s6 v alive h =
      ap
        (λ (y : Result).
          let e : Ended = record {
            server = record s6 { status = fin };
            reported = s6.status;
            thread = w;
            client = y.0;
            effects = y.1;
          } in
          e)
        (hears-fin (x.opening 2) (x.stales 0) (x.raws 0) s6 x.server v alive h)

  -- The ends of both sides.
  pub session-completes :
      (disk : Disk)
      → (x.opening 1).open_ok ≡ true
      → ((k : ℕ) → (x.envs k).write_ok ≡ true)
      → disk s.file_path ≡ some c
      → let e = session disk x s u in
        (e.thread.pc ≡ exited)
        × (e.reported ≡ done)
        × (e.server.status ≡ fin)
        × (e.client.status ≡ fin)
        × (e.client.is_active ≡ false)
        × (e.client.new_file ≡ some c)
        × (e.effects ≡ (if u.has_client then file_received s.new_file_version ∷ [] else []))
  session-completes disk o writable there =
      let all =
        receive_alive-all s5 c (sends_data-IsReady x s c u r f w) f x.envs x.stales x.raws x.server
          writable s5.total_packet_number u2 (omega arith) (ready_client-HasReceived x s c u r f w)
          refl in
      let (v, d, whole, rep, accepted) =
        report_taken x.raws x.stales x.envs x.server s5 c u2 (x.stales 1) x.client writable
          (sends_data-IsReady x s c u r f w) f r.checksum r.version
          (ready_client-HasReceived x s c u r f w) refl in
      let w' = finished x.raws s5 c in
      let v' = record v { status = done } in
      let e =
        to_report disk (v', sends d ∷ []) o there (all ∙ whole)
        ∙ behind_fin-eq w' (reaches x (sends d ∷ []) w'.tran) v' rep.alive refl in
      (
        ap (λ y. y.thread.pc) e,
        ap (λ y. y.reported) e ∙ ap (λ t. t.status) (reaches-one x d w'.tran w.known) ∙ accepted,
        ap (λ y. y.server.status) e,
        ap (λ y. y.client.status) e,
        ap (λ y. y.client.is_active) e,
        ap (λ y. y.client.new_file) e ∙ rep.stored,
        ap (λ y. y.effects) e
            ∙ ap₂ (λ b n. if b then file_received n ∷ [] else []) rep.client rep.version,
      )
