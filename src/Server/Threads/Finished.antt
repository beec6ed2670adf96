-- ===== src/Server/Threads/Finished.antt =====
-- What a call of `StartFileTransfer` that returns FIN has seen, under every interleaving.
use trftp.Base.{ℕ, ◌⊎◌, ◌≡◌, ◌≢◌, inl, inr, refl, sym, ◌∙◌, arith, Option, none, some}
use trftp.Message.{MessageId, cxl, done, fin, TrftpMessage}
use trftp.ServerTransaction.{Address, ServerTransaction, send_message}
use trftp.ServerTransaction.Receive.{Finishes, on_receive-Move}
use trftp.Server.{Event, receives, cancels, counts, apply}
use trftp.Server.Waits.{SameFile, apply-SameFile, done_cases, move_done}
use trftp.Server.Threads.{
  Stage, notifying, command, Pc, commands, finishes, erases, behind_wait, Act, sends, reads,
  expires, notices, tests, gives_up, ends, Trace, Life, begins, own, others,
}

-- An event is the receipt of a message that reports the file of `t`, and is accepted by the
-- transaction as it stands then.
pub record IsReport (t : ServerTransaction) (e : Event) (u : ServerTransaction) : Type 0 where
  pub msg : TrftpMessage
  pub len : ℕ
  pub addr : Address
  pub received : e ≡ receives msg len addr
  pub same_file : SameFile t u
  pub accepted : Finishes msg len u

-- One of the events within this life of a call is such a report.
abbrev pub TakesReport :
    {t : ServerTransaction} {pc : Pc} {tr : Trace} {n : ℕ} {u : ServerTransaction} {q : Pc}
    → Life t pc tr n u q
    → Type 0
TakesReport begins = ⊥
TakesReport (own raw l a) = TakesReport l
TakesReport {t} (others {u} e l) = TakesReport l ⊎ IsReport t e u

-- Where a call has seen DONE.
abbrev HasSeen : Pc → Type 0
HasSeen finishes = Unit {0}
HasSeen (erases fin) = Unit {0}
HasSeen _ = ⊥

-- The file is the same as at first, and `P` holds once DONE is there or has been seen.
record IsFounded (P : Type 0) (t u : ServerTransaction) (q : Pc) : Type 0 where
  file : SameFile t u
  reported : u.status ≡ done → P
  seen : HasSeen q → P

behind_wait-HasSeen :
    (stage : Stage) (o : Option MessageId) → HasSeen (behind_wait stage o) → o ≡ some done
behind_wait-HasSeen stage o h = ground arith

command-done : (stage : Stage) → command stage ≢ done
command-done stage e = ground arith

send_message-SameFile :
    (id : MessageId) (raw : TrftpMessage) (t u : ServerTransaction)
    → SameFile t u
    → SameFile t (send_message id raw u).0
unfolding send_message
send_message-SameFile id raw t u v = ground (arith, v)

send_command-status :
    (stage : Stage) (raw : TrftpMessage) (u : ServerTransaction)
    → (send_message (command stage) raw u).0.status ≡ command stage
unfolding send_message
send_command-status stage raw u = ground arith

cancelled_status :
    (raw : TrftpMessage) (u : ServerTransaction) → (send_message cxl raw u).0.status ≡ cxl
unfolding send_message
cancelled_status raw u = refl

-- An event that makes a transaction DONE is the receipt of an accepted message.
event-IsReport :
    (e : Event) (t u : ServerTransaction)
    → SameFile t u
    → u.status ≢ done
    → (apply e u).status ≡ done
    → IsReport t e u
unfolding apply
event-IsReport (receives m len addr) t u v n d = record {
  msg = m;
  len = len;
  addr = addr;
  received = refl;
  same_file = v;
  accepted = move_done m len addr u n (on_receive-Move m len addr u) d;
}
event-IsReport (cancels raw) t u v n d = absurd (cc (cancelled_status raw u, d))
event-IsReport (counts psn request) t u v n d = absurd (n d)

event-IsFounded :
    {P : Type 0} (e : Event) (t u : ServerTransaction) (q : Pc)
    → IsFounded P t u q
    → IsFounded (P ⊎ IsReport t e u) t (apply e u) q
event-IsFounded e t u q v = record {
  file = apply-SameFile e t u v.file;
  reported = λ d. elim (done_cases u.status) [
    | inl already ↦ inl (v.reported already)
    | inr not_yet ↦ inr (event-IsReport e t u v.file not_yet d)
  ];
  seen = λ h. inl (v.seen h);
}

same_file : (t : ServerTransaction) → SameFile t t
same_file t = record { version = refl; size = refl; crc = refl; count = refl }

Act-IsFounded :
    {P : Type 0} {raw : TrftpMessage} {t u u' : ServerTransaction} {q q' : Pc}
    → Act raw u q u' q'
    → IsFounded P t u q
    → IsFounded P t u' q'
Act-IsFounded {P} {raw} {t} {u} (sends stage) v = record {
  file = send_message-SameFile (command stage) raw t u v.file;
  reported = λ d. absurd (command-done stage (sym (send_command-status stage raw u) ∙ d));
  seen = λ h. absurd h;
}
Act-IsFounded (reads stage) v = record {
  file = v.file;
  reported = v.reported;
  seen = λ h. absurd h;
}
Act-IsFounded (expires stage old e) v = record {
  file = v.file;
  reported = v.reported;
  seen = λ h. absurd (cc (behind_wait-HasSeen stage none h));
}
Act-IsFounded (notices stage old e) v = record {
  file = v.file;
  reported = v.reported;
  seen = λ h. absurd h;
}
Act-IsFounded {P} {raw} {t} {u} (tests stage) v = record {
  file = v.file;
  reported = v.reported;
  seen = λ h. v.reported (cc (behind_wait-HasSeen stage (some u.status) h));
}
Act-IsFounded {P} {raw} {t} {u} gives_up v = record {
  file = send_message-SameFile cxl raw t u v.file;
  reported = λ d. absurd (cc (cancelled_status raw u, d));
  seen = λ h. absurd h;
}
Act-IsFounded {P} {raw} {t} {u} ends v = record {
  file = send_message-SameFile fin raw t u v.file;
  reported = λ d. v.seen tt;
  seen = λ h. v.seen tt;
}

Life-IsFounded :
    {t : ServerTransaction} {pc : Pc} {tr : Trace} {n : ℕ} {u : ServerTransaction} {q : Pc}
    → (l : Life t pc tr n u q) → IsFounded ⊥ t t pc
    → IsFounded (TakesReport l) t u q
Life-IsFounded begins v = v
Life-IsFounded (own raw l a) v = Act-IsFounded a (Life-IsFounded l v)
Life-IsFounded {t} (others {u} {q} e l) v = event-IsFounded e t u q (Life-IsFounded l v)

-- Whatever other threads do to the transaction of a call of `StartFileTransfer` in the meantime,
-- the transaction not being in DONE at first, and however their steps and the call's interleave:
-- if the call comes to return FIN, one of those other threads' steps was the receipt of a message
-- by the transaction, which still was for the same file, such that the message passes the integrity
-- check and is a DONE with the version, length and CRC of the file, and the sending thread had
-- counted past the last packet at that moment.
pub Life-TakesReport :
    (t u : ServerTransaction) (tr : Trace) (n : ℕ)
    → t.status ≢ done
    → (l : Life t (commands notifying) tr n u (erases fin)) → TakesReport l
Life-TakesReport t u tr n fresh l =
    let start : IsFounded ⊥ t t (commands notifying) = record {
      file = same_file t;
      reported = fresh;
      seen = λ h. h;
    } in
    (Life-IsFounded l start).seen tt
