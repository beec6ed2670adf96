-- ===== src/Server/Threads/Dangling.antt =====
-- An iterator of the table whose entry is erased before it is used.
use trftp.Base.{put, put_here, ℕ, ◌≡◌, none, some}
use trftp.Message.{MessageId}
use trftp.Server.{find, Event}
use trftp.Server.Threads.{erases, Call, Found, System, removed, removes, finds, Step}
use trftp.Server.Threads.Map.{find-erase_own}
use trftp.Server.Threads.Exclusive.{Holds, IsExclusive}

-- In a state in which the calls and the entries of the table belong together, a call is about to
-- erase its entry, when an event, the receipt of a message of its client or an `AbortFileTransfer`
-- for it, comes to a thread that is not using another entry. Then it can happen that this thread
-- finds the call's entry, and in the next step the call erases it: the thread still holds the
-- iterator, for that event and with the call's transaction, and the table has no entry under the
-- client's address any more.
pub iterator_dangles :
    (s : System) (k j : ℕ) (c : Call) (status : MessageId) (e : Event)
    → IsExclusive s
    → Holds s k c
    → c.pc ≡ erases status
    → s.found j ≡ none
    → let f : Found = record { ip = c.ip; tran = c.tran; event = e } in
      let s1 = record s { found = put j (some f) s.found } in
      let u = removed s1 k c status in
      Step s s1 × Step s1 u × (u.found j ≡ some f) × (find c.ip u.active ≡ none)
iterator_dangles s k j c status e v h pc idle =
    let f : Found = record { ip = c.ip; tran = c.tran; event = e } in
    let s1 = record s { found = put j (some f) s.found } in
    (
      finds s j c.ip c.tran e idle (v.owns k c h),
      removes s1 k c status h.called pc,
      put_here j (some f) s.found,
      find-erase_own c.ip s.active,
    )
