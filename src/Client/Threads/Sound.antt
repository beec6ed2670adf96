-- ===== src/Client/Threads/Sound.antt =====
-- What holds of a client with its two threads, and of what its application is handed.
use trftp.Base.{◌⊎◌, ◌≡◌, true, false, none, some, List, [], ◌∷◌, ◌++◌, Bool-cases, inl, inr}
use trftp.Message.{ntf, message_id}
use trftp.Crc.{calculate_file_crc32}
use trftp.ClientTransaction.{ClientTransaction, Effect, Result, file_size}
use trftp.ClientTransaction.Invariant.{Inv, Verified}
use trftp.ClientTransaction.Quiet.{IsQuiet, IsBacked}
use trftp.ClientTransaction.Delivery.{delivers}
use trftp.Client.Threads.{Opening, Handed, System, calls, handled}

-- The file is the announced one.
abbrev pub IsVerified : Handed → Type 0
IsVerified h = (file_size h.file ≡ h.size) × (calculate_file_crc32 h.file ≡ h.crc32)

-- So are all that were handed while no `Reset` was waiting.
abbrev pub AllVerified : List Handed → Type 0
AllVerified [] = Unit {0}
AllVerified (h ∷ hs) = ((h.during_reset ≡ true) ⊎ IsVerified h) × AllVerified hs

pub record IsSound (s : System) : Type 0 where
  pub inv : s.resetting ≡ false → Inv s.client.transaction
  pub backed : IsBacked s.client.transaction
  pub quiet : s.client.transaction.is_active ≡ false → IsQuiet s.client.transaction
  pub opened :
      (o : Opening) → s.opening ≡ some o → s.receiving ≡ false → IsQuiet s.client.transaction
  pub notified : (o : Opening) → s.opening ≡ some o → message_id o.msg.header.xid ≡ ntf
  -- No call of `Begin` is pending.
  pub started : s.opening ≡ none → Inv s.client.transaction
  pub joinable : s.receiving ≡ true → s.client.transaction.thread ≡ true
  pub verified : AllVerified s.handed

AllVerified-append :
    (hs ks : List Handed) → AllVerified hs → AllVerified ks → AllVerified (hs ++ ks)
AllVerified-append [] ks h k = k
AllVerified-append (x ∷ hs) ks (v, h) k = (v, AllVerified-append hs ks h k)

calls-AllVerified :
    (s : System) (t : ClientTransaction) (es : List Effect)
    → (s.resetting ≡ false → delivers es ≡ true → Verified t)
    → AllVerified (calls s t es)
calls-AllVerified s t es h = elim (Bool-cases (delivers es)) [
  | inr silent ↦ rw silent tt
  | inl called ↦ elim (Bool-cases s.client.file_handler) [
    | inr detached ↦ rw (called, detached) tt
    | inl attached ↦
        rw (called, attached)
          (elim (Bool-cases s.resetting) [
            | inl e ↦ (inl e, tt)
            | inr e ↦ let (closed, size, crc) = h e called in (inr (size, crc), tt)
          ])
  ]
]

pub handled-AllVerified :
    (s : System) (r : Result)
    → AllVerified s.handed
    → (s.resetting ≡ false → delivers r.1 ≡ true → Verified r.0)
    → AllVerified (handled s r).handed
handled-AllVerified s r v h =
    AllVerified-append s.handed (calls s r.0 r.1) v (calls-AllVerified s r.0 r.1 h)
