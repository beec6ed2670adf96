-- ===== src/Server/Threads.antt =====
-- The threads that share the table of active transactions: calls of `StartFileTransfer`, each cut at
-- its accesses to the table and to the transaction's status; the listening thread and calls of
-- `AbortFileTransfer`, each cut between its `find` and the use of what that gave. Their steps
-- interleave freely. The table's own operations are one step each.
pub mod Map
pub mod Exclusive
pub mod Mirrors
pub mod Entries
pub mod Invariant
pub mod Dangling
pub mod Finished
pub mod Calls
pub mod Courses
use trftp.Base.{
  ◌++◌, put, ℕ, suc, ◌≡◌, Bool, true, false, ◌==◌, Option, none, some, List, [], ◌∷◌, if◌then◌else◌,
}
use trftp.Message.{MessageId, ntf, chk, info, rdy, cxl, data', done, fin, same, TrftpMessage}
use trftp.ServerTransaction.{ServerTransaction, send_message}
use trftp.Server.{Text, find, erase, Event, apply}

-- Which of its three commands a call is at.
pub data Stage : Type 0 where
  notifying informing sending : Stage

abbrev pub command : Stage → MessageId
command notifying = ntf
command informing = info
command sending = data'

-- Where a call stands, from its `try_emplace` on; `waits` has read the old status.
pub data Pc : Type 0 where
  commands : Stage → Pc
  begins_wait : Stage → Pc
  waits : Stage → MessageId → Pc
  wakes : Stage → Pc
  cancels finishes : Pc
  erases returned : MessageId → Pc

-- The tests behind a wait.
abbrev pub behind_wait : Stage → Option MessageId → Pc
behind_wait notifying none = erases ntf
behind_wait notifying (some chk) = commands informing
behind_wait informing (some rdy) = commands sending
behind_wait sending (some done) = finishes
behind_wait stage (some cxl) = erases cxl
behind_wait stage _ = cancels

-- A call: its client, and the transaction that it has made.
pub record Call : Type 0 where
  pub ip : Text
  pub tran : ℕ
  pub pc : Pc

-- What `find` gave to the listening thread or to `AbortFileTransfer`, and what it is for: a message
-- or a CXL.
pub record Found : Type 0 where
  pub ip : Text
  pub tran : ℕ
  pub event : Event

-- The transactions, by the order of their making, and how many there are; the calls and the users of
-- the table, by a number of their thread.
pub record System : Type 0 where
  pub active : List (Text × ℕ)
  pub transactions : ℕ → ServerTransaction
  pub made : ℕ
  pub calls : ℕ → Option Call
  pub found : ℕ → Option Found

-- A step of a call on its own transaction, and where it goes on.
pub data Act (raw : TrftpMessage) (t : ServerTransaction)
    : Pc → ServerTransaction → Pc → Type 0 where
  sends :
      (stage : Stage)
      → Act raw t (commands stage) (send_message (command stage) raw t).0 (begins_wait stage)
  reads : (stage : Stage) → Act raw t (begins_wait stage) t (waits stage t.status)
  expires :
      (stage : Stage) (old : MessageId)
      → same t.status old ≡ true
      → Act raw t (waits stage old) t (behind_wait stage none)
  notices :
      (stage : Stage) (old : MessageId)
      → same t.status old ≡ false
      → Act raw t (waits stage old) t (wakes stage)
  tests : (stage : Stage) → Act raw t (wakes stage) t (behind_wait stage (some t.status))
  gives_up : Act raw t cancels (send_message cxl raw t).0 (erases cxl)
  ends : Act raw t finishes (send_message fin raw t).0 (erases fin)

abbrev pub acted : System → ℕ → Call → ServerTransaction → Pc → System
acted s k c t pc = record s {
  transactions = put c.tran t s.transactions;
  calls = put k (some (record c { pc = pc })) s.calls;
}

-- `try_emplace` that inserts.
abbrev pub emplaced : System → ℕ → Text → ServerTransaction → System
emplaced s k ip t = record s {
  active = (ip, s.made) ∷ s.active;
  transactions = put s.made t s.transactions;
  made = suc s.made;
  calls = put k (some (record { ip = ip; tran = s.made; pc = commands notifying })) s.calls;
}

abbrev pub removed : System → ℕ → Call → MessageId → System
removed s k c status = record s {
  active = erase c.ip s.active;
  calls = put k (some (record c { pc = returned status })) s.calls;
}

pub data Step : System → System → Type 0 where
  -- `try_emplace` inserts the transaction that the call has made.
  emplaces :
      (s : System) (k : ℕ) (ip : Text) (t : ServerTransaction)
      → s.calls k ≡ none
      → find ip s.active ≡ none
      → Step s (emplaced s k ip t)
  acts :
      (s : System) (k : ℕ) (c : Call) (raw : TrftpMessage) {t : ServerTransaction} {pc : Pc}
      → s.calls k ≡ some c
      → Act raw (s.transactions c.tran) c.pc t pc
      → Step s (acted s k c t pc)
  removes :
      (s : System) (k : ℕ) (c : Call) (status : MessageId)
      → s.calls k ≡ some c
      → c.pc ≡ erases status
      → Step s (removed s k c status)
  -- A thread's next call of `StartFileTransfer`.
  leaves :
      (s : System) (k : ℕ) (c : Call) (status : MessageId)
      → s.calls k ≡ some c
      → c.pc ≡ returned status
      → Step s (record s { calls = put k none s.calls })
  finds :
      (s : System) (k : ℕ) (ip : Text) (n : ℕ) (e : Event)
      → s.found k ≡ none
      → find ip s.active ≡ some n
      → Step s (record s { found = put k (some (record { ip = ip; tran = n; event = e })) s.found })
  -- The iterator is used while its entry is there.
  uses :
      (s : System) (k : ℕ) (f : Found)
      → s.found k ≡ some f
      → find f.ip s.active ≡ some f.tran
      → Step s (record s {
        transactions = put f.tran (apply f.event (s.transactions f.tran)) s.transactions;
        found = put k none s.found;
      })
  -- The sending thread of a transaction moves its counters or cancels.
  counts :
      (s : System) (n : ℕ) (e : Event)
      → Step s (record s { transactions = put n (apply e (s.transactions n)) s.transactions })

pub data Reach (s : System) : System → Type 0 where
  here : Reach s s
  next : {u v : System} → Reach s u → Step u v → Reach s v

-- Within which wait a call stands, if it does, and whether it has read the old status.
abbrev pub wait_of : Pc → Option (Stage × Bool)
wait_of (begins_wait stage) = some (stage, false)
wait_of (waits stage old) = some (stage, true)
wait_of (wakes stage) = some (stage, true)
wait_of _ = none

-- What other threads do to a call's transaction, in order, each with the wait within which the call
-- stands then.
abbrev pub Trace : Type 0
Trace = List (Option (Stage × Bool) × Event)

-- The steps of one call, counted, with what other threads do to its transaction in between.
pub data Life (t : ServerTransaction) (pc : Pc) : Trace → ℕ → ServerTransaction → Pc → Type 0 where
  begins : Life t pc [] 0 t pc
  own :
      {tr : Trace} {n : ℕ} {u u' : ServerTransaction} {q q' : Pc} (raw : TrftpMessage)
      → Life t pc tr n u q
      → Act raw u q u' q'
      → Life t pc tr (suc n) u' q'
  others :
      {tr : Trace} {n : ℕ} {u : ServerTransaction} {q : Pc} (e : Event)
      → Life t pc tr n u q
      → Life t pc (tr ++ ((wait_of q, e) ∷ [])) n (apply e u) q
