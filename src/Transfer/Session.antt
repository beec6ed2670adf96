-- ===== src/Transfer/Session.antt =====
-- A whole session between `StartFileTransfer` on the server and a client's transaction: what one
-- side sends is handled by the other, over a network that neither loses nor reorders a datagram. The
-- packets are handled when the sending thread has ended.
pub mod Controls
pub mod Handshake
pub mod Prepared
pub mod Complete
pub mod Course
pub mod Start
use trftp.Base.{ℕ, Bool, ◌+◌, ◌*◌, List, [], ◌∷◌, if◌then◌else◌}
use trftp.Message.{MessageId, ntf, info, data', fin, TrftpMessage}
use trftp.Wire.{received}
use trftp.ServerTransaction.{
  Address, Disk, Datagram, ServerTransaction, Outcome, discarded, sent, starts_sender,
}
use trftp.ServerTransaction
use trftp.ServerTransaction.Sender.{Sender, run}
use trftp.ServerTransaction.Sender.Run.{started}
use trftp.ClientTransaction.{ClientTransaction, Env, Effect, sends, Result, begin}
use trftp.ClientTransaction
use trftp.Server.{Text, same_text}
use trftp.Transfer.{receive_alive}

-- What is uncertain in a session: the server's local messages, both sides' old receive buffers, the
-- circumstances of the client's calls, the two addresses, the text under which the server has filed
-- the transaction, and how `inet_ntoa` writes an address.
pub record Setup : Type 0 where
  pub raws : ℕ → TrftpMessage
  pub stales : ℕ → TrftpMessage
  pub envs : ℕ → Env
  pub opening : ℕ → Env
  pub server : Address
  pub client : Address
  pub ip : Text
  pub inet_ntoa : ℕ → Text

-- The client's listener at the server's first message, which it discards while a transfer is alive.
pub opens : Env → TrftpMessage → Address → Outcome → ClientTransaction → Result
opens env stale addr (sent d) t =
    if t.is_active then (t, []) else begin env (received stale d) d.len addr t
opens env stale addr _ t = (t, [])

-- The client's receiving thread at a later message.
pub hears : Env → TrftpMessage → Address → Outcome → ClientTransaction → Result
hears env stale addr (sent d) t =
    if t.is_active
    then ClientTransaction.on_receive env (received stale d) d.len addr t
    else (t, [])
hears env stale addr _ t = (t, [])

-- The server's transaction at what the client has sent.
unfoldable pub answers :
    TrftpMessage → Address → List Effect → ServerTransaction → ServerTransaction
answers stale addr [] t = t
answers stale addr (sends d ∷ es) t =
    answers stale addr es (ServerTransaction.on_receive (received stale d) d.len addr t)
answers stale addr (_ ∷ es) t = answers stale addr es t

-- Whether the server's listener finds the transaction for a message of the client.
abbrev pub is_found : Setup → Bool
is_found x = same_text x.ip (x.inet_ntoa x.client.ip)

-- What the client has sent reaches it only then.
unfoldable pub reaches : Setup → List Effect → ServerTransaction → ServerTransaction
reaches x es t = if is_found x then answers (x.stales 1) x.client es t else t

-- NTF and INFO, with the client's answers.
pub handshake :
    Setup → ServerTransaction → ClientTransaction → ServerTransaction × ClientTransaction
handshake x s u =
    let (s1, o1) = ServerTransaction.send_message ntf (x.raws 0) s in
    let (u1, e1) = opens (x.opening 0) (x.stales 0) x.server o1 u in
    let s2 = reaches x e1 s1 in
    let (s3, o3) = ServerTransaction.send_message info (x.raws 0) s2 in
    let (u2, e2) = hears (x.opening 1) (x.stales 0) x.server o3 u1 in (reaches x e2 s3, u2)

-- The end of a session: both transactions, the sending thread, and the client's last effects.
pub record Ended : Type 0 where
  pub server : ServerTransaction
  pub reported : MessageId  -- the server's status behind the client's report
  pub thread : Sender
  pub client : ClientTransaction
  pub effects : List Effect

-- DATA with the thread of `SendFileAsync`, the client's report, and FIN.
pub session : Disk → Setup → ServerTransaction → ClientTransaction → Ended
session disk x s u =
    let (s4, u2) = handshake x s u in
    let (s5, o5) = ServerTransaction.send_message data' (x.raws 0) s4 in
    let w = run (5 * s.total_packet_number + 3) disk x.raws (started s5) in
    let (u3, e3) = receive_alive x.envs x.stales x.server w.sends u2 in
    let s6 = reaches x e3 w.tran in
    let (s7, o7) = ServerTransaction.send_message fin (x.raws 0) s6 in
    let (u4, e4) = hears (x.opening 2) (x.stales 0) x.server o7 u3 in
    record { server = s7; reported = s6.status; thread = w; client = u4; effects = e4 }
