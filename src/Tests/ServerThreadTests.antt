-- ===== src/Tests/ServerThreadTests.antt =====
-- Interleavings of the threads that share a server's table, and a send that fails.
use trftp.Base.{false, put, ◌≡◌, ◌≤◌, ◌⊎◌, refl, true, some, none, [], ◌∷◌, ◌++◌}
use trftp.Message.{MessageId, ntf}
use trftp.ServerTransaction.{ServerTransaction, send_message}
use trftp.Server.{
  Text, Course, Failure, throws, start_file_transfer, drive, cancels, apply, route, find,
}
use trftp.Server.Missed.{early}
use trftp.Server.Uri.{NoColon, find_nothing}
use trftp.Server.Failing.{start_failing}
use trftp.Server.Failing.Blocked.{now, routes, attempt_first, failed_send_blocks}
use trftp.Server.Threads.{
  System, Call, Found, Step, removed, notifying, commands, begins_wait, waits, erases, sends, reads,
  expires, acted, emplaced, emplaces, acts, Reach, here, next, Pc, begins, own, others,
}
use trftp.Server.Threads.Exclusive.{Holds, IsExclusive}
use trftp.Server.Threads.Invariant.{idle_server, Reach-IsExclusive}
use trftp.Server.Threads.Dangling.{iterator_dangles}
use trftp.Server.Threads.Calls.{Goes, call_ends}
use trftp.Server.Threads.Courses.{Lives, met, drive-Lives}
use trftp.Tests.{replicate, raw_message, some_address, disk_of, sending}

abbrev server : ServerTransaction
server = sending (replicate 1409) 1409 2

abbrev ip : Text
ip = 49 ∷ 48 ∷ []

abbrev notified : ServerTransaction
notified = (send_message ntf raw_message server).0

abbrev call : Pc → Call
call pc = record { ip = ip; tran = 0; pc = pc }

abbrev opened : System
opened = emplaced (idle_server server) 5 ip server

abbrev sent : System
sent = acted opened 5 (call (commands notifying)) notified (begins_wait notifying)

abbrev waiting : System
waiting = acted sent 5 (call (begins_wait notifying)) notified (waits notifying ntf)

abbrev timed_out : System
timed_out = acted waiting 5 (call (waits notifying ntf)) notified (erases ntf)

unanswered : Reach (idle_server server) timed_out
unfolding send_message
unanswered =
    next
      (next
        (next (next here (emplaces (idle_server server) 5 ip server refl (find_nothing ip)))
          (acts opened 5 (call (commands notifying)) raw_message refl (sends notifying)))
        (acts sent 5 (call (begins_wait notifying)) raw_message refl (reads notifying)))
      (acts waiting 5 (call (waits notifying ntf)) raw_message refl (expires notifying ntf refl))

Reach-IsExclusive_example : IsExclusive timed_out
Reach-IsExclusive_example = Reach-IsExclusive server unanswered

timed_out-Holds : Holds timed_out 5 (call (erases ntf))
timed_out-Holds = record { called = refl; flying = refl }

iterator_dangles_example :
    let c = call (erases ntf) in
    let f : Found = record { ip = c.ip; tran = c.tran; event = cancels raw_message } in
    let s1 = record timed_out { found = put 0 (some f) timed_out.found } in
    let u = removed s1 5 c ntf in
    Step timed_out s1 × Step s1 u × (u.found 0 ≡ some f) × (find c.ip u.active ≡ none)
iterator_dangles_example =
    iterator_dangles timed_out 5 0 (call (erases ntf)) ntf (cancels raw_message)
      (Reach-IsExclusive server unanswered) timed_out-Holds refl refl

abbrev cancelled : ServerTransaction
cancelled = apply (cancels raw_message) notified

call_ends_example :
    (1 ≤ 13)
    × (((status : MessageId) × (begins_wait notifying ≡ erases status))
        ⊎ Goes raw_message cancelled (begins_wait notifying))
call_ends_example =
    call_ends raw_message server cancelled (begins_wait notifying)
      ((some (notifying, false), cancels raw_message) ∷ []) 1
      (others (cancels raw_message) (own raw_message begins (sends notifying)))

abbrev course : Course
course = record {
  notified = early (cancels raw_message ∷ []);
  informed = early [];
  sending = early [];
  raw = raw_message;
}

drive-Lives_example :
    Lives server
      (commands notifying)
      (met course server)
      (drive course server).1
      (erases (drive course server).0)
drive-Lives_example = drive-Lives course server

plain : NoColon ip
plain = (λ e. cc, (λ e. cc, tt))

failed_send_blocks_example :
    let s = start_failing (λ n. true) course ip [] server in
    let u = route (λ a. ip) raw_message 36 some_address s.0 in
    (s.1 ≡ none)
    × (f : Failure) × (start_file_transfer
          (λ x. some 7)
          (λ x. 0x0A00_0001)
          (disk_of (replicate 1409))
          course
          (ip ++ (58 ∷ (55 ∷ [])))
          "f"
          2
          1
          u
        ≡ (u, throws f))
failed_send_blocks_example =
    failed_send_blocks (λ a. ip) (λ x. some 7) (λ x. 0x0A00_0001) (λ n. true) course ip server
      notified [] [] _ plain (attempt_first (λ n. true) course server refl)
      (routes raw_message 36 some_address now) (disk_of (replicate 1409)) course (55 ∷ []) "f" 2 1
