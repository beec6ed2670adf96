-- ===== src/Server/Failing/Blocked.antt =====
-- The entry that a call of `StartFileTransfer` leaves in the table when a send throws.
use Prim.Native.String.{String}
use trftp.Base.{
  ℕ, ◌≡◌, ◌≢◌, refl, sym, ap, ◌∙◌, arith, Bool, true, Option, none, some, List, [], ◌∷◌, ◌++◌,
  Bool-cases, inl, inr, subst, length, leb,
}
use trftp.Message.{cxl, ntf, TrftpMessage}
use trftp.ServerTransaction.{Address, Disk, ServerTransaction, Outcome, send_message, on_receive}
use trftp.Server.{
  Text, same_text, Table, find, route, abort_file_transfer, Course, Failure, invalid_ip,
  file_not_found, invalid_port, transaction_exists, exists, throws, start_found, start_created,
  start_with_port, start_file_transfer,
}
use trftp.Server.Table.{
  same_text_refl, changed, route-find, Aborts, abort_file_transfer-Aborts, start_file_transfer-find,
}
use trftp.Server.Uri.{NoColon, from_parts, start_file_transfer-parts}
use trftp.Server.Failing.{Attempt, thrown, Fails, attempt, settle, start_failing}

-- The first send fails.
pub attempt_first :
    (fails : Fails) (c : Course) (t : ServerTransaction)
    → fails 0 ≡ true
    → attempt fails c t ≡ thrown (send_message ntf c.raw t).0 []
unfolding attempt
attempt_first fails c t h = rw h refl

module _ (inet_ntoa : ℕ → Text) (stoi : Text → Option ℕ) (inet_addr : Text → ℕ) where
  -- What can happen to the table from then on: a message is routed, a transfer is aborted, a call of
  -- `StartFileTransfer` runs to its end, or one throws at a send.
  pub data Later (active : Table) : Table → Type 0 where
    now : Later active active
    routes :
        {u : Table} (m : TrftpMessage) (len : ℕ) (addr : Address)
        → Later active u
        → Later active (route inet_ntoa m len addr u)
    aborts :
        {u v : Table} (raw : TrftpMessage) (ip : Text) (o : Outcome)
        → Later active u
        → abort_file_transfer raw ip u ≡ some (v, o)
        → Later active v
    starts :
        {u : Table} (disk : Disk) (c : Course) (uri : Text) (path : String) (version device : ℕ)
        → Later active u
        → Later active (start_file_transfer stoi inet_addr disk c uri path version device u).0
    fails_again :
        {u : Table} (fails : Fails) (c : Course) (ip : Text) (t t' : ServerTransaction)
        (os : List Outcome)
        → Later active u
        → find ip u ≡ none
        → attempt fails c t ≡ thrown t' os
        → Later active (start_failing fails c ip u t).0

changed_some :
    (b : Bool) (f : ServerTransaction → ServerTransaction) (o : Option ServerTransaction)
    → o ≢ none
    → changed b f o ≢ none
changed_some b f none h = absurd (h refl)
changed_some b f (some t) h = λ e. cc

find_first :
    (key ip : Text) (t : ServerTransaction) (active : Table)
    → find key active ≢ none
    → find key ((ip, t) ∷ active) ≢ none
unfolding find
find_first key ip t active h = ground arith

-- The call that threw has left its own transaction under its key.
settle_thrown :
    (ip : Text) (active : Table) (a : Attempt) (t' : ServerTransaction) (os : List Outcome)
    → a ≡ thrown t' os
    → settle ip active a ≡ ((ip, t') ∷ active, none)
unfolding settle
settle_thrown ip active a t' os e = rw e refl

-- And has lost no other.
start_failing-find :
    (fails : Fails) (c : Course) (key ip : Text) (t t' : ServerTransaction) (os : List Outcome)
    (active : Table)
    → attempt fails c t ≡ thrown t' os
    → find key active ≢ none
    → find key (start_failing fails c ip active t).0 ≢ none
unfolding start_failing
start_failing-find fails c key ip t t' os active e h =
    subst (λ s. find key s.0 ≢ none) (sym (settle_thrown ip active (attempt fails c t) t' os e))
      (find_first key ip t' active h)

find_own :
    (ip : Text) (t : ServerTransaction) (active : Table) → find ip ((ip, t) ∷ active) ≡ some t
unfolding find
find_own ip t active = rw (same_text_refl ip) refl

module _ (inet_ntoa : ℕ → Text) (stoi : Text → Option ℕ) (inet_addr : Text → ℕ) where
  Later-find :
      (key : Text) {active u : Table}
      → Later inet_ntoa stoi inet_addr active u
      → find key active ≢ none
      → find key u ≢ none
  Later-find key now h = h
  Later-find key (routes m len addr l) h = λ e.
      changed_some (same_text key (inet_ntoa addr.ip)) (on_receive m len addr) _
        (Later-find key l h) (sym (route-find inet_ntoa m len addr key _) ∙ e)
  Later-find key (aborts {u} {v} raw ip o l e) h =
      let a : Aborts raw ip key u (some (v, o)) =
        subst (Aborts raw ip key u) e (abort_file_transfer-Aborts raw ip key u) in
      λ e'.
        changed_some (same_text key ip) (λ t. (send_message cxl raw t).0) _ (Later-find key l h)
          (sym a.1 ∙ e')
  Later-find key (starts disk c uri path version device l) h = λ e.
      Later-find key l h
        (sym (start_file_transfer-find stoi inet_addr c key _ disk uri path version device) ∙ e)
  Later-find key (fails_again {u} fails c ip t t' os l free e) h =
      start_failing-find fails c key ip t t' os u e (Later-find key l h)

  module _ (disk : Disk) (c : Course) (path : String) (version device : ℕ) (active : Table) where
    start_found_refused :
        (ip : Text) (t : ServerTransaction) (other : Option ServerTransaction)
        → other ≢ none
        → (f : Failure) × (start_found stoi inet_addr c ip active other t ≡ (active, throws f))
    unfolding start_found
    start_found_refused ip t none h = absurd (h refl)
    start_found_refused ip t (some other) h = (transaction_exists, refl)

    start_created_refused :
        (ip : Text) (t : Option ServerTransaction)
        → find ip active ≢ none
        → (f : Failure) × (start_created stoi inet_addr c ip active t ≡ (active, throws f))
    unfolding start_created
    start_created_refused ip none h = (file_not_found, refl)
    start_created_refused ip (some t) h = start_found_refused ip t (find ip active) h

    start_with_port_refused :
        (ip : Text) (port : Option ℕ)
        → find ip active ≢ none
        → (f : Failure) × (start_with_port stoi inet_addr disk c ip path version device active port
            ≡ (active, throws f))
    unfolding start_with_port
    start_with_port_refused ip none h = (invalid_port, refl)
    start_with_port_refused ip (some port) h = start_created_refused ip _ h

    parts_refused :
        (ip port : Text)
        → find ip active ≢ none
        → (f : Failure) × (from_parts stoi inet_addr disk c path version device active ip port
            ≡ (active, throws f))
    parts_refused ip port h = elim (Bool-cases (leb 16 (length ip))) [
      | inl long ↦ rw long (invalid_ip, refl)
      | inr fits ↦ rw fits (elim (Bool-cases (exists (disk path))) [
        | inr missing ↦ rw missing (file_not_found, refl)
        | inl there ↦ rw there (start_with_port_refused ip (stoi port) h)
      ])
    ]

  -- A call of `StartFileTransfer` for an address without a colon has filed its transaction in the
  -- table, and throws at a send. Then it returns nothing; and however the table changes afterwards
  -- by messages, aborts and calls that end or throw at a send, every call for that address throws
  -- and leaves the table alone, whatever its port, its file and its version are.
  pub failed_send_blocks :
      (fails : Fails) (c : Course) (ip : Text) (t t' : ServerTransaction) (os : List Outcome)
      (active u : Table)
      → NoColon ip
      → attempt fails c t ≡ thrown t' os
      → Later inet_ntoa stoi inet_addr (start_failing fails c ip active t).0 u
      → (disk : Disk) (c' : Course) (port : Text) (path : String) (version device : ℕ)
      → ((start_failing fails c ip active t).1 ≡ none)
        × (f : Failure) × (start_file_transfer stoi inet_addr disk c'
              (ip ++ (58 ∷ port))
              path
              version
              device
              u
            ≡ (u, throws f))
  unfolding start_failing
  failed_send_blocks fails c ip t t' os active u plain e l disk c' port path version device =
      let left = settle_thrown ip active (attempt fails c t) t' os e in
      let held = Later-find ip l (λ h. absurd (cc (find_own ip t' active, h, left))) in
      let (f, refused) = parts_refused disk c' path version device u ip port held in
      (
        ap (λ s. s.1) left,
        f,
        start_file_transfer-parts stoi inet_addr disk c' path version device u ip port plain
            ∙ refused,
      )
