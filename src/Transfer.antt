-- ===== src/Transfer.antt =====
-- The two sides together: datagrams that one side sends are handled by the other.
pub mod Data
pub mod Packet
pub mod File
pub mod Done
pub mod Small
pub mod Receiver
pub mod Recovery
pub mod Loss
pub mod Session
use trftp.Base.{ℕ, if◌then◌else◌, List, [], ◌∷◌, length}
use trftp.Message.{TrftpMessage}
use trftp.Wire.{received}
use trftp.ServerTransaction.{Address, Datagram}
use trftp.ClientTransaction.{ClientTransaction, Env, Result, on_receive, after}

-- The client's handler over datagrams, the newest first in the list, with the circumstances of each
-- call by its number.
pub receive_all :
    (ℕ → Env) → (ℕ → TrftpMessage) → Address → List Datagram → ClientTransaction → Result
receive_all envs stales addr [] t = (t, [])
receive_all envs stales addr (d ∷ ds) t =
    let (t', es) = receive_all envs stales addr ds t in
    after es (on_receive (envs (length ds)) (received (stales (length ds)) d) d.len addr t')

-- The same, as the receiving thread does it: while the transaction is alive.
pub receive_alive :
    (ℕ → Env) → (ℕ → TrftpMessage) → Address → List Datagram → ClientTransaction → Result
receive_alive envs stales addr [] t = (t, [])
receive_alive envs stales addr (d ∷ ds) t =
    let (t', es) = receive_alive envs stales addr ds t in
    let n = length ds in
    let handled = after es (on_receive (envs n) (received (stales n) d) d.len addr t') in
    if t'.is_active then handled else (t', es)
