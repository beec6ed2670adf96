-- ===== src/Server/Lifetime.antt =====
-- The constructor and the destructor of `Server`, and its listening thread between them, cut at the
-- test of `is_running_` and at `Receive`.
use trftp.Base.{
  ℕ, ◌≡◌, ◌⊎◌, inl, inr, arith, refl, Bool, true, false, Option, none, some, [], if◌then◌else◌,
}
use trftp.Message.{TrftpMessage}
use trftp.ClientTransaction.{Received, timeout, datagram}
use trftp.UdpSocket.{Outcome, throws, returns, Recv, receive}
use trftp.UdpSocket.Rounds.{fatal}
use trftp.Server.{Text, Table, route}

-- Where the listening thread stands: at the loop's test, within `Receive`, or behind its function,
-- which an exception leaves too.
data Phase : Type 0 where
  testing receiving ended crashed : Phase

record Server : Type 0 where
  is_running : Bool
  thread : Option Phase  -- `none`: not joinable
  active : Table

-- `Server(port, factory)` behind the opening of its socket.
abbrev new_server : Server
new_server = record { is_running = true; thread = some testing; active = [] }

-- What a round does with the result of `Receive`.
handled : (ℕ → Text) → Server → Outcome Received → Server
handled inet_ntoa s (throws e) = record s { thread = some crashed }
handled inet_ntoa s (returns timeout) = record s { thread = some testing }
handled inet_ntoa s (returns (datagram msg len addr)) = record s {
  thread = some testing;
  active = route inet_ntoa msg len addr s.active;
}

-- One step of the listening thread; a wait ends with the kernel's answer.
step_from : (ℕ → Text) → TrftpMessage → Recv → Option Phase → Server → Server
unfolding handled
step_from inet_ntoa raw answer (some testing) s =
    if s.is_running then record s { thread = some receiving } else record s { thread = some ended }
step_from inet_ntoa raw answer (some receiving) s = handled inet_ntoa s (receive raw answer)
step_from inet_ntoa raw answer _ s = s

listen_step : (ℕ → Text) → TrftpMessage → Recv → Server → Server
unfolding step_from
listen_step inet_ntoa raw answer s = step_from inet_ntoa raw answer s.thread s

-- `~Server()` up to its join, and the join of a thread that has ended.
abbrev stop : Server → Server
stop s = record s { is_running = false }

join_from : Option Phase → Server → Server
join_from (some ended) s = record s { thread = none }
join_from _ s = s

join : Server → Server
unfolding join_from
join s = join_from s.thread s

module _ (inet_ntoa : ℕ → Text) (raw raw' : TrftpMessage) (answer answer' : Recv) (s : Server) where
  -- The destructor, and two steps of the thread.
  abbrev stopped : Server
  stopped = join (listen_step inet_ntoa raw' answer' (listen_step inet_ntoa raw answer (stop s)))

  received_tests :
      (t : Server)
      → t.is_running ≡ false
      → fatal answer ≡ none
      → let u = handled inet_ntoa t (receive raw answer) in
        (u.thread ≡ some testing) × (u.is_running ≡ false)
  unfolding handled receive fatal
  received_tests t idle good = ground arith

  -- Whenever the destructor sets `is_running_` to false, the listening thread being at the test of
  -- its loop or within a wait whose answer is not fatal: two of its steps later it can be joined.
  destructor_ends :
      (p : Phase)
      → s.thread ≡ some p
      → (p ≡ testing) ⊎ (p ≡ receiving)
      → fatal answer ≡ none
      → stopped.thread ≡ none
  unfolding listen_step step_from join join_from
  destructor_ends p at (inl testing_p) good = rw (at, testing_p) refl
  destructor_ends p at (inr waiting) good =
      let (tests, idle) = received_tests (stop s) refl good in rw (at, waiting, tests, idle) refl
