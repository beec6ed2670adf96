-- ===== src/ServerTransaction/Threads/Invariant.antt =====
-- What holds of the shared state under every interleaving.
use trftp.Base.{
  ℕ, ◌*◌, ◌≤◌, ◌<◌, ◌≡◌, refl, arith, ◌⊎◌, Bool, true, false, Option, none, some, List, u32_max,
}
use trftp.Message.{MessageId, ntf, TrftpMessage, payload_size}
use trftp.ServerTransaction.{Address, Disk, on_receive, send_message}
use trftp.ServerTransaction.Receive.{on_receive-Untouched}
use trftp.ServerTransaction.Sender.{
  Pc, open_file, test, check, prepare, tail, waited, increment, exited, Sender, sender_step,
  step_at, open_step,
}
use trftp.ServerTransaction.Threads.{
  System, with_tran, Step, sends, receives, checks_request, stores_request, commands, Reach, here,
  next,
}

-- Inside the body of the loop.
abbrev pub in_body : Pc → Bool
in_body check = true
in_body prepare = true
in_body tail = true
in_body waited = true
in_body increment = true
in_body _ = false

-- A request that is stored, or about to be: for a packet of the file, or for the count itself
-- where the loop can no longer serve it.
abbrev pub Servable : Sender → ℕ → Type 0
Servable s r =
    (r < s.tran.total_packet_number)
    ⊎ ((r ≡ s.tran.total_packet_number)
        × (s.tran.packet_sequence_number ≡ s.tran.total_packet_number)
        × (in_body s.pc ≡ false))

abbrev pub AllServable : Sender → Option ℕ → Type 0
AllServable s none = Unit {0}
AllServable s (some r) = Servable s r

pub record Inv (s : System) : Type 0 where
  pub within : s.sender.tran.packet_sequence_number ≤ s.sender.tran.total_packet_number
  pub below :
      in_body s.sender.pc ≡ true
      → s.sender.tran.packet_sequence_number < s.sender.tran.total_packet_number
  pub not_started : s.sender.pc ≡ open_file → s.sender.tran.packet_sequence_number ≡ 0
  pub small : s.sender.tran.total_packet_number * payload_size ≤ u32_max
  pub stored :
      (s.sender.tran.retransmit_psn ≡ u32_max) ⊎ Servable s.sender s.sender.tran.retransmit_psn
  pub requested : AllServable s.sender s.pending

open_step-Inv :
    (raw : TrftpMessage) (s : System) (c : Option (List ℕ))
    → s.sender.pc ≡ open_file
    → Inv s
    → Inv (record s { sender = open_step raw c s.sender })
unfolding open_step send_message
open_step-Inv raw s none e v = ground arith
open_step-Inv raw s (some c) e v = ground arith

step_at-Inv :
    (disk : Disk) (raw : TrftpMessage) (s : System) (pc : Pc)
    → s.sender.pc ≡ pc
    → Inv s
    → Inv (record s { sender = step_at pc disk raw s.sender })
unfolding step_at send_message
step_at-Inv disk raw s open_file e v = open_step-Inv raw s (disk s.sender.tran.file_path) e v
step_at-Inv disk raw s test e v = ground arith
step_at-Inv disk raw s check e v = ground arith
step_at-Inv disk raw s prepare e v = ground arith
step_at-Inv disk raw s tail e v = ground arith
step_at-Inv disk raw s waited e v = ground arith
step_at-Inv disk raw s increment e v = ground arith
step_at-Inv disk raw s exited e v = ground arith

sender_step-Inv :
    (disk : Disk) (raw : TrftpMessage) (s : System)
    → Inv s
    → Inv (record s { sender = sender_step disk raw s.sender })
unfolding sender_step
sender_step-Inv disk raw s v = step_at-Inv disk raw s s.sender.pc refl v

receive-Inv :
    (s : System) (m : TrftpMessage) (len : ℕ) (addr : Address)
    → s.pending ≡ none
    → Inv s
    → Inv (with_tran s (on_receive m len addr s.sender.tran))
receive-Inv s m len addr e v = ground (arith, on_receive-Untouched m len addr s.sender.tran)

command-Inv :
    (s : System) (id : MessageId) (raw : TrftpMessage)
    → Inv s
    → Inv (with_tran s (send_message id raw s.sender.tran).0)
unfolding send_message
command-Inv s ntf raw v = ground arith
command-Inv s _ raw v = ground arith

pub Step-Inv : {disk : Disk} {s u : System} → Step disk s u → Inv s → Inv u
Step-Inv {disk} (sends s raw) v = sender_step-Inv disk raw s v
Step-Inv (receives s m len addr e) v = receive-Inv s m len addr e v
Step-Inv (checks_request s r addr e d h) v = ground arith
Step-Inv (stores_request s r e) v = ground arith
Step-Inv (commands s id raw) v = command-Inv s id raw v

-- Under every interleaving of the three threads the packet number stays within the file, and
-- strictly within it wherever a packet is prepared or sent; no stored request can carry the sender
-- past the last packet.
pub Reach-Inv : {disk : Disk} {s u : System} → Inv s → Reach disk s u → Inv u
Reach-Inv v here = v
Reach-Inv v (next r st) = Step-Inv st (Reach-Inv v r)
