-- ===== src/UdpSocket/Rounds.antt =====
-- What a listening thread of the client or the server goes through: `while (is_running_)` around
-- one call of `UdpSocket::Receive`, in which an exception leaves the thread's function.
use trftp.Base.{Bool, Option, none, some, List, [], ◌∷◌, if◌then◌else◌}
use trftp.Message.{TrftpMessage}
use trftp.UdpSocket.{other, SocketError, recv_failed, Recv, failed, got}

-- One round: `is_running_` at its head, the uninitialised message, and the kernel's answer.
pub record Round : Type 0 where
  pub running : Bool
  pub raw : TrftpMessage
  pub answer : Recv

-- An answer that is neither a datagram with a byte at least nor an interrupted or empty wait.
unfoldable pub fatal : Recv → Option SocketError
fatal (failed (other n)) = some (recv_failed (some (other n)))
fatal (failed _) = none
fatal (got [] addr) = some (recv_failed none)
fatal (got (b ∷ bs) addr) = none

abbrev pub first : Option SocketError → Option SocketError → Option SocketError
first (some e) rest = some e
first none rest = rest

-- The first fatal answer of the rounds before `is_running_` is false.
unfoldable pub failure : List Round → Option SocketError
failure [] = none
failure (r ∷ rs) = let rest = failure rs in if r.running then first (fatal r.answer) rest else none
