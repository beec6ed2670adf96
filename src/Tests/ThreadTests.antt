-- ===== src/Tests/ThreadTests.antt =====
-- An interleaving of the three threads: a request is checked, the sender moves, the request is
-- stored, and the sender moves again.
use trftp.Base.{◌≡◌, ◌≤◌, ◌+◌, length, refl, arith, none, some, inl}
use trftp.Message.{cxl}
use trftp.ServerTransaction.{Disk}
use trftp.ServerTransaction.Sender.{Sender, prepare, exited, run, sender_step}
use trftp.ServerTransaction.Sender.Stop.{cancelled_ends}
use trftp.ServerTransaction.Sender.Run.{started}
use trftp.ServerTransaction.Threads.{
  System, sends, checks_request, stores_request, Reach, here, next,
}
use trftp.ServerTransaction.Threads.Invariant.{Inv, Reach-Inv}
use trftp.ServerTransaction.Threads.Packets.{AllGenuine, Reach-AllGenuine}
use trftp.Tests.{replicate, raw_message, some_address, disk_of, sending}

abbrev disk : Disk
disk = disk_of (replicate 1409)

abbrev start : System
start = record { sender = started (sending (replicate 1409) 1409 2); pending = none }

abbrev requested : System
requested = record start { pending = some 0 }

abbrev moved : System
moved = record requested { sender = sender_step disk raw_message requested.sender }

abbrev stored : System
stored = record moved {
  sender = record (moved.sender) { tran = record (moved.sender.tran) { retransmit_psn = 0 } };
  pending = none;
}

abbrev served : System
served = record stored { sender = sender_step disk raw_message stored.sender }

interleaving : Reach disk start served
interleaving =
    next
      (next
        (next (next here (checks_request start 0 some_address refl refl (omega arith)))
          (sends requested raw_message))
        (stores_request moved 0 refl))
      (sends stored raw_message)

start-Inv : Inv start
start-Inv = record {
  within = omega arith;
  below = λ h. cc;
  not_started = λ h. refl;
  small = omega arith;
  stored = inl refl;
  requested = tt;
}

Reach-Inv_example : Inv served
Reach-Inv_example = Reach-Inv start-Inv interleaving

Reach-AllGenuine_example :
    AllGenuine served.sender.ifs served.sender.tran.total_packet_number served.sender.sends
Reach-AllGenuine_example = Reach-AllGenuine start-Inv refl interleaving

-- The transfer is cancelled when its thread is about to send packet 0.
abbrev cancelled : Sender
cancelled = record (start.sender) {
  tran = record (start.sender.tran) { status = cxl };
  pc = prepare;
}

cancelled_ends_example :
    let u = run 6 disk (λ n. raw_message) cancelled in
    (u.pc ≡ exited) × (length u.sends ≤ length cancelled.sends + 1)
cancelled_ends_example = cancelled_ends disk (λ n. raw_message) cancelled refl
