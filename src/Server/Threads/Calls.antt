-- ===== src/Server/Threads/Calls.antt =====
-- A call of `StartFileTransfer` comes to its end, whatever the other threads do to its transaction.
use trftp.Base.{
  ℕ, ◌+◌, ◌<◌, ◌≤◌, ◌≡◌, ◌⊎◌, refl, arith, true, Bool-cases, inl, inr, Option, none, some,
}
use trftp.Message.{MessageId, same, TrftpMessage}
use trftp.ServerTransaction.{ServerTransaction}
use trftp.Server.Threads.{
  Stage, notifying, informing, sending, Pc, commands, begins_wait, waits, wakes, cancels, finishes,
  erases, returned, behind_wait, Act, sends, reads, expires, notices, tests, gives_up, ends, Trace,
  Life, begins, own, others,
}
use trftp.Server.Threads.Exclusive.{in_flight}
use trftp.Server.Threads.Mirrors.{Act-flies}

before : Stage → ℕ
before notifying = 9
before informing = 5
before sending = 1

-- How many steps are left at most.
rank : Pc → ℕ
unfolding before
rank (commands stage) = before stage + 4
rank (begins_wait stage) = before stage + 3
rank (waits stage old) = before stage + 2
rank (wakes stage) = before stage + 1
rank cancels = 1
rank finishes = 1
rank _ = 0

behind_wait-rank :
    (stage : Stage) (o : Option MessageId) → rank (behind_wait stage o) ≤ before stage
unfolding before rank
behind_wait-rank stage o = ground arith

Act-rank :
    {raw : TrftpMessage} {t t' : ServerTransaction} {pc pc' : Pc}
    → Act raw t pc t' pc'
    → rank pc' < rank pc
unfolding before rank
Act-rank (sends stage) = ground arith
Act-rank (reads stage) = ground arith
Act-rank (expires stage old e) = ground (arith, behind_wait-rank stage none)
Act-rank (notices stage old e) = ground arith
Act-rank {raw} {t} (tests stage) = ground (arith, behind_wait-rank stage (some t.status))
Act-rank gives_up = ground arith
Act-rank ends = ground arith

Life-rank :
    {t : ServerTransaction} {pc : Pc} {tr : Trace} {n : ℕ} {u : ServerTransaction} {q : Pc}
    → Life t pc tr n u q
    → n + rank q ≤ rank pc
Life-rank begins = omega arith
Life-rank (own raw l a) = omega (arith, Life-rank l, Act-rank a)
Life-rank (others e l) = Life-rank l

Life-flies :
    {t : ServerTransaction} {pc : Pc} {tr : Trace} {n : ℕ} {u : ServerTransaction} {q : Pc}
    → Life t pc tr n u q
    → in_flight pc ≡ true
    → in_flight q ≡ true
Life-flies begins h = h
Life-flies (own raw l a) h = (Act-flies a).1
Life-flies (others e l) h = Life-flies l h

-- The next step of a call.
pub record Goes (raw : TrftpMessage) (u : ServerTransaction) (q : Pc) : Type 0 where
  pub tran : ServerTransaction
  pub pc : Pc
  pub act : Act raw u q tran pc

-- A call that does not stand before its `erase` can go on.
waits-Goes :
    (raw : TrftpMessage) (u : ServerTransaction) (stage : Stage) (old : MessageId)
    → Goes raw u (waits stage old)
waits-Goes raw u stage old = elim (Bool-cases (same u.status old)) [
  | inl e ↦ record { tran = u; pc = behind_wait stage none; act = expires stage old e }
  | inr e ↦ record { tran = u; pc = wakes stage; act = notices stage old e }
]

progress :
    (raw : TrftpMessage) (u : ServerTransaction) (q : Pc)
    → in_flight q ≡ true
    → ((status : MessageId) × (q ≡ erases status)) ⊎ Goes raw u q
progress raw u (commands stage) h = inr (record { tran = _; pc = _; act = sends stage })
progress raw u (begins_wait stage) h = inr (record { tran = _; pc = _; act = reads stage })
progress raw u (waits stage old) h = inr (waits-Goes raw u stage old)
progress raw u (wakes stage) h = inr (record { tran = _; pc = _; act = tests stage })
progress raw u cancels h = inr (record { tran = _; pc = _; act = gives_up })
progress raw u finishes h = inr (record { tran = _; pc = _; act = ends })
progress raw u (erases status) h = inl (status, refl)
progress raw u (returned status) h = absurd (cc h)

-- Whatever other threads do to the transaction of a call in the meantime: the call has taken at most
-- 13 steps since its `try_emplace`, and it stands before the `erase` with which it returns, or can
-- take a step.
pub call_ends :
    (raw : TrftpMessage) (t u : ServerTransaction) (q : Pc) (tr : Trace) (n : ℕ)
    → Life t (commands notifying) tr n u q
    → (n ≤ 13) × (((status : MessageId) × (q ≡ erases status)) ⊎ Goes raw u q)
unfolding rank before
call_ends raw t u q tr n l =
    let r = Life-rank l in (omega (arith, r), progress raw u q (Life-flies l refl))
