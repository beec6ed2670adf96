-- ===== src/UdpSocket/Guard.antt =====
-- The constructor's guard: no descriptor is lost, and none is closed twice.
use trftp.Base.{ℕ, ◌≡◌, refl, Option, none, some, List, [], ◌∷◌, ◌++◌}
use trftp.UdpSocket.{
  Errno, Outcome, throws, returns, UdpSocket, Kernel, Opened, open_bound, open_reused, open_timed,
  open_created, new_socket, descriptors, destroy,
}

-- The descriptors that are still open behind the constructor.
abbrev pub held : Outcome UdpSocket → List ℕ
held (throws e) = []
held (returns s) = destroy s

-- Closed by the guard, or held by the socket.
abbrev accounted : Opened → List ℕ
accounted o = o.1 ++ held o.0

bound_accounted : (k : Kernel) (fd : ℕ) (e : Option Errno) → accounted (open_bound k fd e) ≡ fd ∷ []
unfolding open_bound destroy
bound_accounted k fd none = refl
bound_accounted k fd (some e) = refl

reused_accounted :
    (k : Kernel) (fd : ℕ) (e : Option Errno) → accounted (open_reused k fd e) ≡ fd ∷ []
unfolding open_reused
reused_accounted k fd none = bound_accounted k fd k.bind_error
reused_accounted k fd (some e) = refl

timed_accounted : (k : Kernel) (fd : ℕ) (e : Option Errno) → accounted (open_timed k fd e) ≡ fd ∷ []
unfolding open_timed
timed_accounted k fd none = reused_accounted k fd k.reuse_error
timed_accounted k fd (some e) = refl

created_accounted : (k : Kernel) (o : Option ℕ) → accounted (open_created k o) ≡ descriptors o
unfolding open_created
created_accounted k none = refl
created_accounted k (some fd) = timed_accounted k fd k.timeout_error

-- Whichever call of the constructor fails, or none: a descriptor that the kernel gave is either
-- closed by the guard, once, or it is the one that the socket's destructor closes.
pub new_socket_accounts :
    (k : Kernel) → (new_socket k).1 ++ held (new_socket k).0 ≡ descriptors k.descriptor
unfolding new_socket
new_socket_accounts k = created_accounted k k.descriptor
