-- ===== src/UdpSocket.antt =====
-- src/udp_socket.cpp and include/trftp/udp_socket.h. What the kernel answers to a system call is an
-- argument; a thrown `std::runtime_error` is a value. The mutex of `Send` only orders calls.
pub mod Bytes
pub mod Guard
pub mod Rounds
pub mod Sizes
use trftp.Base.{
  ℕ, ◌+◌, ◌*◌, ◌/◌, ◌%◌, Bool, true, false, Option, none, some, List, [], ◌∷◌, ◌++◌, ◌==◌, get_or,
  suc, if◌then◌else◌, length, take, drop,
}
use trftp.Message.{TrftpHeader, TrftpMessage, header_size, payload_size, word_at, message_bytes}
use trftp.ServerTransaction.{Address}
use trftp.ClientTransaction.{Received, timeout, datagram}

-- `errno`, as far as the code tells its values apart.
pub data Errno : Type 0 where
  eagain ewouldblock eintr : Errno
  other : ℕ → Errno

-- The `std::runtime_error`s, by the call that fails.
pub data SocketError : Type 0 where
  socket_failed timeout_failed reuse_failed bind_failed send_failed : Errno → SocketError
  recv_failed : Option Errno → SocketError
  closed : SocketError

pub data Outcome (A : Type 0) : Type 0 where
  throws : SocketError → Outcome A
  returns : A → Outcome A

-- `fd_`; `none` is a negative one.
pub record UdpSocket : Type 0 where
  pub fd : Option ℕ

-- What the kernel answers to the constructor's calls; `none` is success but for `descriptor`.
pub record Kernel : Type 0 where
  pub descriptor : Option ℕ
  pub socket_errno : Errno
  pub timeout_error : Option Errno
  pub reuse_error : Option Errno
  pub bind_error : Option Errno

-- The constructor's outcome, with the descriptors that `socket_guard` has closed.
abbrev pub Opened : Type 0
Opened = Outcome UdpSocket × List ℕ

pub open_bound : Kernel → ℕ → Option Errno → Opened
open_bound k fd (some e) = (throws (bind_failed e), fd ∷ [])
open_bound k fd none = (returns (record { fd = some fd }), [])

pub open_reused : Kernel → ℕ → Option Errno → Opened
unfolding open_bound
open_reused k fd (some e) = (throws (reuse_failed e), fd ∷ [])
open_reused k fd none = open_bound k fd k.bind_error

pub open_timed : Kernel → ℕ → Option Errno → Opened
unfolding open_reused
open_timed k fd (some e) = (throws (timeout_failed e), fd ∷ [])
open_timed k fd none = open_reused k fd k.reuse_error

pub open_created : Kernel → Option ℕ → Opened
unfolding open_timed
open_created k none = (throws (socket_failed k.socket_errno), [])
open_created k (some fd) = open_timed k fd k.timeout_error

-- `UdpSocket(port)`.
pub new_socket : Kernel → Opened
unfolding open_created
new_socket k = open_created k k.descriptor

abbrev pub descriptors : Option ℕ → List ℕ
descriptors none = []
descriptors (some fd) = fd ∷ []

-- `~UdpSocket()`: the descriptors that it closes.
pub destroy : UdpSocket → List ℕ
destroy s = descriptors s.fd

pub record Timeval : Type 0 where
  pub tv_sec : ℕ
  pub tv_usec : ℕ

-- The interval that `SetReadTimeout` hands to the kernel.
abbrev pub interval : ℕ → Timeval
interval us = record { tv_sec = us / 1000000; tv_usec = us % 1000000 }

no_error : Option Errno → Bool
no_error none = true
no_error (some e) = false

set_timeout : Option ℕ → ℕ → (Timeval → Option Errno) → Outcome Bool
set_timeout none us setsockopt = throws closed
set_timeout (some fd) us setsockopt = returns (no_error (setsockopt (interval us)))

-- `SetReadTimeout(us)`, with the kernel's answer to each interval.
pub set_read_timeout : UdpSocket → ℕ → (Timeval → Option Errno) → Outcome Bool
unfolding set_timeout no_error
set_read_timeout s us setsockopt = set_timeout s.fd us setsockopt

-- `sizeof(TrftpMessage)`.
abbrev pub message_size : ℕ
message_size = 1440

abbrev pub half_at : ℕ → List ℕ → ℕ
half_at i b = get_or b i 0 + 256 * get_or b (suc i) 0

-- The header as the bytes of a message object have it.
abbrev pub header_of : List ℕ → TrftpHeader
header_of b = record {
  magic = word_at 0 b;
  spid = half_at 4 b;
  dpid = half_at 6 b;
  tpn = word_at 8 b;
  tpl = word_at 12 b;
  xid = word_at 16 b;
  crc32 = word_at 20 b;
  psn = word_at 24 b;
  pl = word_at 28 b;
}

-- The message object `raw` after `recvfrom` has stored bytes at its start.
pub stored : TrftpMessage → List ℕ → TrftpMessage
stored raw bytes =
    let b = bytes ++ drop (length bytes) (message_bytes raw) in
    record { header = header_of b; payload = drop header_size b }

-- The kernel's answer to `recvfrom`.
pub data Recv : Type 0 where
  failed : Errno → Recv
  got : List ℕ → Address → Recv

-- `Receive(msg, addr)`: a result of 0 is `timeout`. What does not fit into the message is lost.
unfoldable pub receive : TrftpMessage → Recv → Outcome Received
receive raw (failed eagain) = returns timeout
receive raw (failed ewouldblock) = returns timeout
receive raw (failed eintr) = returns timeout
receive raw (failed (other n)) = throws (recv_failed (some (other n)))
receive raw (got [] addr) = throws (recv_failed none)
receive raw (got (b ∷ bs) addr) =
    let bytes = take message_size (b ∷ bs) in
    returns (datagram (stored raw bytes) (length bytes) addr)

-- The kernel's answer to `sendto`.
pub data SendAnswer : Type 0 where
  refused : Errno → SendAnswer
  accepted : ℕ → SendAnswer

send_on : Option ℕ → SendAnswer → Outcome ℕ
send_on none r = throws closed
send_on (some fd) (refused e) = throws (send_failed e)
send_on (some fd) (accepted n) = returns n

-- `Send(msg, len, addr)`.
pub send : UdpSocket → SendAnswer → Outcome ℕ
unfolding send_on
send s r = send_on s.fd r
