-- ===== src/Message/Codec.antt =====
-- Identifiers and words on the wire, and back.
use trftp.Base.{ℕ, ◌≡◌, ◌<◌, refl, arith, List, ◌++◌, u32_mod}
use trftp.Message.{
  MessageId, ntf, chk, info, rdy, cxl, data', rtx, done, fin, other, xid, message_id, word_at,
  u32_bytes,
}

-- An identifier, not one of the values beside the enumerators.
abbrev pub IsKnown : MessageId → Type 0
IsKnown (other n) = ⊥
IsKnown _ = Unit {0}

-- Every enumerator survives its encoding.
pub message_id-xid : (id : MessageId) → IsKnown id → message_id (xid id) ≡ id
unfolding message_id
message_id-xid ntf h = refl
message_id-xid chk h = refl
message_id-xid info h = refl
message_id-xid rdy h = refl
message_id-xid cxl h = refl
message_id-xid data' h = refl
message_id-xid rtx h = refl
message_id-xid done h = refl
message_id-xid fin h = refl
message_id-xid (other n) h = elim h [ ]

-- Up to three words that are written at the start of the union are read back.
pub word_at_first : (a : ℕ) (p : List ℕ) → a < u32_mod → word_at 0 (u32_bytes a ++ p) ≡ a
word_at_first a p h = omega arith

pub word_at_second :
    (a b : ℕ) (p : List ℕ) → b < u32_mod → word_at 4 (u32_bytes a ++ (u32_bytes b ++ p)) ≡ b
word_at_second a b p h = omega arith

pub word_at_third :
    (a b c : ℕ) (p : List ℕ)
    → c < u32_mod
    → word_at 8 (u32_bytes a ++ (u32_bytes b ++ (u32_bytes c ++ p))) ≡ c
word_at_third a b c p h = omega arith
