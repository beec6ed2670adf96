-- ===== src/Server/Threads/Courses.antt =====
-- Every course of a call is one of its interleavings.
use trftp.Base.{
  ◌++◌, sym, subst, append-nil, append_assoc, ℕ, suc, ◌≡◌, Bool, true, false, Bool-cases, inl, inr,
  Option, none, some, List, [], ◌∷◌, if◌then◌else◌,
}
use trftp.Message.{ntf, info, MessageId, chk, rdy, cxl, done, same, TrftpMessage}
use trftp.ServerTransaction.{ServerTransaction, Outcome, send_message}
use trftp.Server.{
  Event, apply, apply_all, events, Window, wait_loop, wait_for_status, Course, give_up, after_data,
  after_info, after_ntf, drive,
}
use trftp.Server.Threads.{
  Stage, notifying, informing, sending, Pc, commands, begins_wait, waits, cancels, erases,
  behind_wait, Act, sends, reads, expires, notices, tests, gives_up, ends, Trace, wait_of, Life,
  begins, own, others,
}

-- Where a life has come to, after some number of steps.
abbrev pub Lives : ServerTransaction → Pc → Trace → ServerTransaction → Pc → Type 0
Lives t pc tr u q = (n : ℕ) × Life t pc tr n u q

abbrev pub marked : Option (Stage × Bool) → List Event → Trace
marked stage [] = []
marked stage (e ∷ es) = (stage, e) ∷ marked stage es

-- The events of a wait, those before it reads the old status and those behind it.
abbrev pub within : Stage → Window → Trace
within stage w =
    marked (some (stage, false)) w.before ++ marked (some (stage, true)) (events w.during)

-- What a call meets in its waits: the events of the first one, those of the second one if the first
-- sees CHK, and those of the third one if the second sees RDY.
abbrev pub met_informed : Course → Option MessageId → Trace
met_informed c (some rdy) = within sending c.sending
met_informed c _ = []

abbrev pub met_notified : Course → Option MessageId → ServerTransaction → Trace
met_notified c (some chk) t =
    within informing c.informed
    ++ met_informed c (wait_for_status c.informed (send_message info c.raw t).0).0
met_notified c _ t = []

abbrev pub met : Course → ServerTransaction → Trace
met c t =
    let (status, u) = wait_for_status c.notified (send_message ntf c.raw t).0 in
    within notifying c.notified ++ met_notified c status u

module _ (t : ServerTransaction) (pc : Pc) where
  along :
      {tr tr' : Trace} {u : ServerTransaction} {q : Pc}
      → tr ≡ tr'
      → Lives t pc tr u q
      → Lives t pc tr' u q
  along {tr} {tr'} {u} {q} e l = subst (λ x. Lives t pc x u q) e l

  others_all :
      (es : List Event) {tr : Trace} {u : ServerTransaction} {q : Pc}
      → Lives t pc tr u q
      → Lives t pc (tr ++ marked (wait_of q) es) (apply_all es u) q
  unfolding apply_all
  others_all [] {tr} l = along (sym (append-nil tr)) l
  others_all (e ∷ es) {tr} {u} {q} (n, l) =
      along (append_assoc tr ((wait_of q, e) ∷ []) (marked (wait_of q) es))
        (others_all es (n, others e l))

  one :
      (raw : TrftpMessage) {tr : Trace} {u u' : ServerTransaction} {q q' : Pc}
      → Lives t pc tr u q
      → Act raw u q u' q'
      → Lives t pc tr u' q'
  one raw (n, l) a = (suc n, own raw l a)

  module _ (raw : TrftpMessage) (stage : Stage) where
    -- The end of a wait, as it is tested.
    abbrev Waited : Trace → Bool × ServerTransaction → Type 0
    Waited tr r = Lives t pc tr r.1 (behind_wait stage (if r.0 then some r.1.status else none))

    woken :
        (old : MessageId) (es : List Event) (tr : Trace) (u : ServerTransaction)
        → Lives t pc tr u (waits stage old)
        → same u.status old ≡ false
        → Waited (tr ++ marked (some (stage, true)) es) (true, apply_all es u)
    woken old es tr u l e = one raw (others_all es (one raw l (notices stage old e))) (tests stage)

    wait_loop-Waited :
        (old : MessageId) (es : List (Event × Bool)) (tr : Trace) (u : ServerTransaction)
        → Lives t pc tr u (waits stage old)
        → Waited (tr ++ marked (some (stage, true)) (events es)) (wait_loop old es u)
    unfolding wait_loop
    wait_loop-Waited old [] tr u l = elim (Bool-cases (same u.status old)) [
      | inl e ↦ rw e (along (sym (append-nil tr)) (one raw l (expires stage old e)))
      | inr e ↦ rw e (unfold apply_all in (woken old [] tr u l e))
    ]
    wait_loop-Waited old ((e, wake) ∷ es) tr u l =
        let u' = apply e u in
        let tr' = tr ++ ((some (stage, true), e) ∷ []) in
        let l' : Lives t pc tr' u' (waits stage old) = (l.0, others e l.1) in
        let ih = wait_loop-Waited old es tr' u' l' in
        let joins =
          append_assoc tr ((some (stage, true), e) ∷ [])
            (marked (some (stage, true)) (events es)) in
        elim (Bool-cases wake) [
          | inr sleeps ↦ rw sleeps (along joins ih)
          | inl woke ↦ elim (Bool-cases (same u'.status old)) [
            | inl e' ↦ rw (woke, e') (along joins ih)
            | inr e' ↦ rw (woke, e') (along joins (woken old (events es) tr' u' l' e'))
          ]
        ]

    wait_for_status-Lives :
        (w : Window) (tr : Trace) (u : ServerTransaction)
        → Lives t pc tr u (begins_wait stage)
        → Lives t pc
            (tr ++ within stage w)
            (wait_for_status w u).1
            (behind_wait stage (wait_for_status w u).0)
    unfolding wait_for_status
    wait_for_status-Lives w tr u l =
        let early = marked (some (stage, false)) w.before in
        along (append_assoc tr early (marked (some (stage, true)) (events w.during))) (
          wait_loop-Waited (apply_all w.before u).status w.during (tr ++ early)
            (apply_all w.before u) (one raw (others_all w.before l) (reads stage)))

  given_up :
      (raw : TrftpMessage) (tr : Trace) (u : ServerTransaction) (os : List Outcome)
      → Lives t pc tr u cancels
      → Lives t pc tr (give_up raw u os).1 (erases (give_up raw u os).0)
  unfolding give_up
  given_up raw tr u os l = one raw l gives_up

  after_data-Lives :
      (raw : TrftpMessage) (o : Option MessageId) (tr : Trace) (u : ServerTransaction)
      (os : List Outcome)
      → Lives t pc tr u (behind_wait sending o)
      → Lives t pc tr (after_data raw o u os).1 (erases (after_data raw o u os).0)
  unfolding after_data
  after_data-Lives raw (some cxl) tr u os l = l
  after_data-Lives raw (some done) tr u os l = one raw l ends
  after_data-Lives raw _ tr u os l = given_up raw tr u os l

  after_info-Lives :
      (c : Course) (o : Option MessageId) (tr : Trace) (u : ServerTransaction) (os : List Outcome)
      → Lives t pc tr u (behind_wait informing o)
      → Lives t pc (tr ++ met_informed c o) (after_info c o u os).1 (erases (after_info c o u os).0)
  unfolding after_info
  after_info-Lives c (some cxl) tr u os l = along (sym (append-nil tr)) l
  after_info-Lives c (some rdy) tr u os l =
      after_data-Lives c.raw _ _ _ _
        (wait_for_status-Lives c.raw sending c.sending tr _ (one c.raw l (sends sending)))
  after_info-Lives c _ tr u os l = along (sym (append-nil tr)) (given_up c.raw tr u os l)

  after_ntf-Lives :
      (c : Course) (o : Option MessageId) (tr : Trace) (u : ServerTransaction) (os : List Outcome)
      → Lives t pc tr u (behind_wait notifying o)
      → Lives t pc (tr ++ met_notified c o u) (after_ntf c o u os).1 (erases (after_ntf c o u os).0)
  unfolding after_ntf
  after_ntf-Lives c none tr u os l = along (sym (append-nil tr)) l
  after_ntf-Lives c (some cxl) tr u os l = along (sym (append-nil tr)) l
  after_ntf-Lives c (some chk) tr u os l =
      let seen = within informing c.informed in
      along (append_assoc tr seen _) (
        after_info-Lives c _ (tr ++ seen) _ _
          (wait_for_status-Lives c.raw informing c.informed tr _ (one c.raw l (sends informing))))
  after_ntf-Lives c _ tr u os l = along (sym (append-nil tr)) (given_up c.raw tr u os l)

-- Whatever happens in the three waits of a call of `StartFileTransfer`: what the call does with its
-- transaction, and the status it returns, are those of an interleaving of its steps with exactly the
-- events of the waits that it comes to, in their order: each while the call stands within that wait,
-- and before or behind its reading of the old status as the course says.
pub drive-Lives :
    (c : Course) (t : ServerTransaction)
    → Lives t (commands notifying) (met c t) (drive c t).1 (erases (drive c t).0)
unfolding drive
drive-Lives c t = after_ntf-Lives t (commands notifying) c _ _ _ _ (
    wait_for_status-Lives t (commands notifying) c.raw notifying c.notified [] _
      (one t (commands notifying) c.raw (0, begins) (sends notifying)))
