-- ===== src/ServerTransaction/Threads/Packets.antt =====
-- What the sender transmits, under every interleaving.
use mathlib.Core.Path.{ap₂}
use trftp.Base.{
  ℕ, ◌+◌, ◌*◌, ◌-◌, ◌≤◌, ◌<◌, ◌≡◌, refl, ◌∙◌, arith, ◌⊎◌, inl, inr, Option, none, some, List, [],
  ◌∷◌, ◌==◌, ==_iff, length, take, drop, take-append_exact, u32_max, Bool-cases,
}
use trftp.Message.{MessageId, ntf, cxl, data', xid, TrftpMessage, payload_size, header_size}
use trftp.ServerTransaction.{Disk, Datagram, ServerTransaction, send_message, complete_header}
use trftp.ServerTransaction.Receive.{on_receive-Untouched}
use trftp.ServerTransaction.Sender.{
  Pc, open_file, test, check, prepare, tail, waited, increment, exited, Sender, sender_step,
  step_at, transmit, cancel, open_step, packet_len, packet_offset, read_at, data_packet,
}
use trftp.ServerTransaction.Threads.{
  System, Step, sends, receives, checks_request, stores_request, commands, Reach, here, next,
}
use trftp.ServerTransaction.Threads.Invariant.{Inv, Step-Inv}

-- A CXL, or a DATA packet of the file with the file's bytes at its own number's offset.
abbrev pub IsGenuine : List ℕ → ℕ → Datagram → Type 0
IsGenuine c tpn d =
    (d.msg.header.xid ≡ xid cxl)
    ⊎ ((d.msg.header.xid ≡ xid data')
        × (d.msg.header.psn < tpn)
        × (take (d.len - header_size) d.msg.payload
            ≡ read_at c (d.msg.header.psn * payload_size) (d.len - header_size)))

abbrev pub AllGenuine : List ℕ → ℕ → List Datagram → Type 0
AllGenuine c tpn [] = Unit {0}
AllGenuine c tpn (d ∷ ds) = IsGenuine c tpn d × AllGenuine c tpn ds

pub data_packet-payload :
    (t : ServerTransaction) (raw : TrftpMessage) (psn : ℕ) (bytes : List ℕ)
    → let d = data_packet t raw psn bytes in take (d.len - header_size) d.msg.payload ≡ bytes
unfolding data_packet complete_header
data_packet-payload t raw psn bytes =
    take-append_exact (header_size + length bytes - header_size) bytes
      (drop (length bytes) raw.payload) (omega arith)

data_packet-IsGenuine :
    (t : ServerTransaction) (raw : TrftpMessage) (c : List ℕ) (psn n : ℕ)
    → psn < t.total_packet_number
    → t.total_packet_number * payload_size ≤ u32_max
    → length (read_at c (packet_offset psn) n) ≡ n
    → IsGenuine c t.total_packet_number (data_packet t raw psn (read_at c (packet_offset psn) n))
unfolding data_packet complete_header
data_packet-IsGenuine t raw c psn n below small full = inr (
  refl,
  below,
  data_packet-payload t raw psn (read_at c (packet_offset psn) n)
      ∙ ap₂ (read_at c) (omega arith) (omega arith),
)

-- The packets so far, and none before the file is open.
pub record Sound (s : Sender) : Type 0 where
  pub genuine : AllGenuine s.ifs s.tran.total_packet_number s.sends
  pub fresh : s.pc ≡ open_file → s.sends ≡ []

cancel-Sound : (raw : TrftpMessage) (s : Sender) → Sound s → Sound (cancel raw s)
unfolding cancel send_message complete_header
cancel-Sound raw s v = record { genuine = (inl refl, v.genuine); fresh = λ e. cc }

transmit-Sound :
    (raw : TrftpMessage) (s : Sender)
    → s.tran.packet_sequence_number < s.tran.total_packet_number
    → s.tran.total_packet_number * payload_size ≤ u32_max
    → Sound s
    → Sound (transmit raw s)
unfolding transmit
transmit-Sound raw s below small v =
    let psn = s.tran.packet_sequence_number in
    let n = packet_len s.tran psn in
    elim (Bool-cases (length (read_at s.ifs (packet_offset psn) n) == n)) [
      | inl full ↦ rw full (record {
        genuine = (
          data_packet-IsGenuine s.tran raw s.ifs psn n below small ((==_iff _ n).0 full),
          v.genuine,
        );
        fresh = λ e. cc;
      })
      | inr short ↦ rw short (cancel-Sound raw s v)
    ]

open_step-Sound :
    (raw : TrftpMessage) (s : Sender) (c : Option (List ℕ))
    → s.pc ≡ open_file
    → Sound s
    → Sound (open_step raw c s)
unfolding open_step
open_step-Sound raw s none e v = cancel-Sound raw s v
open_step-Sound raw s (some c) e v = record { genuine = rw (v.fresh e) tt; fresh = λ h. cc }

step_at-Sound :
    (disk : Disk) (raw : TrftpMessage) (s : System) (pc : Pc)
    → s.sender.pc ≡ pc
    → Inv s
    → Sound s.sender
    → Sound (step_at pc disk raw s.sender)
unfolding step_at
step_at-Sound disk raw s open_file e i v = open_step-Sound raw s.sender _ e v
step_at-Sound disk raw s test e i v = ground arith
step_at-Sound disk raw s check e i v = ground arith
step_at-Sound disk raw s prepare e i v = transmit-Sound raw s.sender (i.below (rw e refl)) i.small v
step_at-Sound disk raw s tail e i v = ground arith
step_at-Sound disk raw s waited e i v = ground arith
step_at-Sound disk raw s increment e i v = ground arith
step_at-Sound disk raw s exited e i v = v

receive-Sound :
    (s : Sender) (t : ServerTransaction)
    → t.total_packet_number ≡ s.tran.total_packet_number
    → Sound s
    → Sound (record s { tran = t })
receive-Sound s t e v = record { genuine = rw e v.genuine; fresh = v.fresh }

command-tpn :
    (id : MessageId) (raw : TrftpMessage) (t : ServerTransaction)
    → (send_message id raw t).0.total_packet_number ≡ t.total_packet_number
unfolding send_message
command-tpn ntf raw t = refl
command-tpn _ raw t = refl

Step-Sound : {disk : Disk} {s u : System} → Step disk s u → Inv s → Sound s.sender → Sound u.sender
unfolding sender_step
Step-Sound {disk} (sends s raw) i v = step_at-Sound disk raw s s.sender.pc refl i v
Step-Sound (receives s m len addr e) i v =
    receive-Sound s.sender _ (on_receive-Untouched m len addr s.sender.tran).tpn v
Step-Sound (checks_request s r addr e d h) i v = receive-Sound s.sender _ refl v
Step-Sound (stores_request s r e) i v = receive-Sound s.sender _ refl v
Step-Sound (commands s id raw) i v = receive-Sound s.sender _ (command-tpn id raw s.sender.tran) v

Reach-both :
    {disk : Disk} {s u : System} → Inv s → Sound s.sender → Reach disk s u → Inv u × Sound u.sender
Reach-both i v here = (i, v)
Reach-both i v (next r st) =
    let (i', v') = Reach-both i v r in (Step-Inv st i', Step-Sound st i' v')

-- Under every interleaving each transmitted datagram is a CXL, or a DATA packet whose number lies
-- within the file and whose payload is the open file's bytes at that number's offset.
pub Reach-AllGenuine :
    {disk : Disk} {s u : System}
    → Inv s
    → s.sender.sends ≡ []
    → Reach disk s u
    → AllGenuine u.sender.ifs u.sender.tran.total_packet_number u.sender.sends
Reach-AllGenuine i e r = (Reach-both i (record { genuine = rw e tt; fresh = λ _. e }) r).1.genuine
