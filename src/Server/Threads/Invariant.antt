-- ===== src/Server/Threads/Invariant.antt =====
-- The table and the calls that are under way, under every interleaving.
use trftp.Base.{refl, none, []}
use trftp.ServerTransaction.{ServerTransaction}
use trftp.Server.{find}
use trftp.Server.Threads.{
  System, Step, emplaces, acts, removes, leaves, finds, uses, counts, Reach, here, next,
}
use trftp.Server.Threads.Exclusive.{IsExclusive}
use trftp.Server.Threads.Mirrors.{
  Act-flies, Mirrors-IsExclusive, same-Mirrors, acted-Mirrors, leaves-Mirrors,
}
use trftp.Server.Threads.Entries.{emplaced-IsExclusive, removed-IsExclusive}

Step-IsExclusive : {s u : System} → Step s u → IsExclusive s → IsExclusive u
Step-IsExclusive (emplaces s k ip t idle free) v = emplaced-IsExclusive s k ip t idle free v
Step-IsExclusive (acts s k c raw {t} {pc} called a) v =
    let (from, to) = Act-flies a in
    Mirrors-IsExclusive (acted-Mirrors s k c t pc (record { called = called; flying = from }) to) v
Step-IsExclusive (removes s k c status called pc) v = removed-IsExclusive s k c status called pc v
Step-IsExclusive (leaves s k c status called pc) v =
    Mirrors-IsExclusive (leaves-Mirrors s k c status called pc) v
Step-IsExclusive (finds s k ip n e idle there) v =
    Mirrors-IsExclusive (same-Mirrors s _ refl refl) v
Step-IsExclusive (uses s k f held there) v = Mirrors-IsExclusive (same-Mirrors s _ refl refl) v
Step-IsExclusive (counts s n e) v = Mirrors-IsExclusive (same-Mirrors s _ refl refl) v

-- A server behind its constructor: an empty table, and no call.
abbrev pub idle_server : ServerTransaction → System
idle_server t = record {
  active = [];
  transactions = λ n. t;
  made = 0;
  calls = λ k. none;
  found = λ k. none;
}

idle_server-IsExclusive : (t : ServerTransaction) → IsExclusive (idle_server t)
unfolding find
idle_server-IsExclusive t = record {
  owns = λ k c h. absurd (cc h.called);
  apart = λ k k' c c' h h' e. absurd (cc h.called);
  owned = λ ip n e. absurd (cc e);
}

IsExclusive-Reach : {s u : System} → IsExclusive s → Reach s u → IsExclusive u
IsExclusive-Reach v here = v
IsExclusive-Reach v (next r st) = Step-IsExclusive st (IsExclusive-Reach v r)

-- In every state that a server reaches from an empty table, whatever calls of `StartFileTransfer`
-- and `AbortFileTransfer` and whatever messages come, however their threads' steps interleave, while
-- no send throws and no iterator is used whose entry is gone: each call between its `try_emplace` and its `erase` finds its own
-- transaction under its client's address; no two such calls are for the same address; and each entry
-- of the table is that of such a call.
pub Reach-IsExclusive :
    (t : ServerTransaction) {u : System} → Reach (idle_server t) u → IsExclusive u
Reach-IsExclusive t r = IsExclusive-Reach (idle_server-IsExclusive t) r
