-- ===== src/Server/Threads/Exclusive.antt =====
-- What holds between the table and the calls that are under way.
use trftp.Base.{ℕ, ◌≡◌, Bool, true, false, some}
use trftp.Server.{Text, find}
use trftp.Server.Threads.{Pc, returned, Call, System}

-- Whether a call has its entry: from `try_emplace` to `erase`.
abbrev pub in_flight : Pc → Bool
in_flight (returned status) = false
in_flight _ = true

-- A call of thread `k` that has its entry.
pub record Holds (s : System) (k : ℕ) (c : Call) : Type 0 where
  pub called : s.calls k ≡ some c
  pub flying : in_flight c.pc ≡ true

-- The call behind an entry.
pub record Owner (s : System) (ip : Text) (n : ℕ) : Type 0 where
  pub thread : ℕ
  pub call : Call
  pub holds : Holds s thread call
  pub same_ip : call.ip ≡ ip
  pub same_tran : call.tran ≡ n

pub record IsExclusive (s : System) : Type 0 where
  pub owns : (k : ℕ) (c : Call) → Holds s k c → find c.ip s.active ≡ some c.tran
  pub apart : (k k' : ℕ) (c c' : Call) → Holds s k c → Holds s k' c' → c.ip ≡ c'.ip → k ≡ k'
  pub owned : (ip : Text) (n : ℕ) → find ip s.active ≡ some n → Owner s ip n
