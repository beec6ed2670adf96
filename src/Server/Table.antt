-- ===== src/Server/Table.antt =====
-- The table of active transactions: what its operations do to each entry.
use Prim.Native.String.{String}
use trftp.Base.{
  ℕ, ◌+◌, ◌≡◌, refl, sym, arith, Bool, true, false, Option, none, some, [], ◌∷◌, if◌then◌else◌,
  Bool-cases, inl, inr, take, drop,
}
use trftp.Message.{cxl, TrftpMessage}
use trftp.ServerTransaction.{Address, Disk, ServerTransaction, Outcome, on_receive, send_message}
use trftp.Server.{
  Text, same_text, Table, find, erase, update, route, abort_file_transfer, abort_found, Course,
  find_colon, start_found, start_created, start_with_port, start_at, start_file_transfer,
}

pub same_text_refl : (x : Text) → same_text x x ≡ true
unfolding same_text
same_text_refl [] = refl
same_text_refl (c ∷ cs) = ground (arith, same_text_refl cs)

pub same_text-eq : (x y : Text) → same_text x y ≡ true → x ≡ y
unfolding same_text
same_text-eq [] [] h = refl
same_text-eq [] (b ∷ ys) h = absurd cc
same_text-eq (a ∷ xs) [] h = absurd cc
same_text-eq (a ∷ xs) (b ∷ ys) h = ground (arith, same_text-eq xs ys)

-- A change of one entry is seen under its key only.
abbrev pub changed :
    Bool
    → (ServerTransaction → ServerTransaction)
    → Option ServerTransaction
    → Option ServerTransaction
changed hit f none = none
changed hit f (some t) = some (if hit then f t else t)

find-erase :
    (key : Text) (ip : Text) (active : Table)
    → find ip active ≡ none
    → find key (erase ip active) ≡ find key active
unfolding find erase
find-erase key ip [] h = refl
find-erase key ip ((k, t) ∷ rest) h = elim (Bool-cases (same_text ip k)) [
  | inl hit ↦ absurd (ground arith)
  | inr miss ↦ ground (arith, find-erase key ip rest)
]

erase-inserted :
    (key ip : Text) (t : ServerTransaction) (active : Table)
    → find ip active ≡ none
    → find key (erase ip ((ip, t) ∷ active)) ≡ find key active
unfolding erase
erase-inserted key ip t active h = rw (same_text_refl ip) (find-erase key ip active h)

module _ (stoi : Text → Option ℕ) (inet_addr : Text → ℕ) (c : Course) (key : Text)
    (active : Table) where
  start_found-find :
      (ip : Text) (other : Option ServerTransaction) (t : ServerTransaction)
      → find ip active ≡ other
      → find key (start_found stoi inet_addr c ip active other t).0 ≡ find key active
  unfolding start_found
  start_found-find ip (some other) t h = refl
  start_found-find ip none t h = erase-inserted key ip t active h

  start_created-find :
      (ip : Text) (t : Option ServerTransaction)
      → find key (start_created stoi inet_addr c ip active t).0 ≡ find key active
  unfolding start_created
  start_created-find ip none = refl
  start_created-find ip (some t) = start_found-find ip (find ip active) t refl

  start_with_port-find :
      (disk : Disk) (ip : Text) (path : String) (version device : ℕ) (port : Option ℕ)
      → find key (start_with_port stoi inet_addr disk c ip path version device active port).0
        ≡ find key active
  unfolding start_with_port
  start_with_port-find disk ip path version device none = refl
  start_with_port-find disk ip path version device (some port) = start_created-find ip _

  start_at-find :
      (disk : Disk) (uri : Text) (path : String) (version device : ℕ) (pos : Option ℕ)
      → find key (start_at stoi inet_addr disk c uri path version device active pos).0
        ≡ find key active
  unfolding start_at
  start_at-find disk uri path version device none = refl
  start_at-find disk uri path version device (some pos) =
      let ip = take pos uri in
      let port = stoi (drop (pos + 1) uri) in
      ground (arith, start_with_port-find disk ip path version device port)

  -- Whatever `StartFileTransfer` returns or throws, afterwards the table of active transactions
  -- gives for every client what it gave before: the entry of the call is gone, no other is touched.
  pub start_file_transfer-find :
      (disk : Disk) (uri : Text) (path : String) (version device : ℕ)
      → find key (start_file_transfer stoi inet_addr disk c uri path version device active).0
        ≡ find key active
  unfolding start_file_transfer
  start_file_transfer-find disk uri path version device =
      start_at-find disk uri path version device (find_colon uri)

changed_miss :
    (f : ServerTransaction → ServerTransaction) (o : Option ServerTransaction)
    → changed false f o ≡ o
changed_miss f none = refl
changed_miss f (some t) = refl

same_text-false :
    (key ip k : Text) → same_text key k ≡ true → same_text ip k ≡ false → same_text key ip ≡ false
same_text-false key ip k here miss = elim (Bool-cases (same_text key ip)) [
  | inl hit ↦ absurd (cc (here, miss, same_text-eq key ip hit))
  | inr other ↦ other
]

-- A call through the table reaches the entry of its key, and no other.
find-update :
    (key ip : Text) (f : ServerTransaction → ServerTransaction) (active : Table)
    → find key (update ip f active) ≡ changed (same_text key ip) f (find key active)
unfolding find update
find-update key ip f [] = refl
find-update key ip f ((k, t) ∷ rest) =
    let ih = find-update key ip f rest in
    elim (Bool-cases (same_text ip k)) [
      | inl hit ↦
          let e = same_text-eq ip k hit in
          elim (Bool-cases (same_text key k)) [
            | inl here ↦ rw (hit, find, here, e, here) refl
            | inr there ↦ rw (hit, find, there, e, there) (sym (changed_miss f (find key rest)))
          ]
      | inr miss ↦ elim (Bool-cases (same_text key k)) [
        | inl here ↦ rw (miss, find, here, same_text-false key ip k here miss) refl
        | inr there ↦ rw (miss, find, there) ih
      ]
    ]

-- A received message is handled by the transaction that is filed under its sender's address, if
-- there is one, and changes no other.
pub route-find :
    (inet_ntoa : ℕ → Text) (m : TrftpMessage) (len : ℕ) (addr : Address) (key : Text)
    (active : Table)
    → find key (route inet_ntoa m len addr active)
      ≡ changed (same_text key (inet_ntoa addr.ip)) (on_receive m len addr) (find key active)
unfolding route
route-find inet_ntoa m len addr key active =
    find-update key (inet_ntoa addr.ip) (on_receive m len addr) active

-- What an abort for a client leaves under a key, and what comes of its `SendMessage(CXL)`.
abbrev pub Aborts : TrftpMessage → Text → Text → Table → Option (Table × Outcome) → Type 0
Aborts raw ip key active none = find ip active ≡ none
Aborts raw ip key active (some (active', o)) =
    ((t : ServerTransaction) × (find ip active ≡ some t) × (o ≡ (send_message cxl raw t).1))
    × (find key active'
        ≡ changed (same_text key ip) (λ u. (send_message cxl raw u).0) (find key active))

abort_found-Aborts :
    (raw : TrftpMessage) (ip key : Text) (active : Table) (o : Option ServerTransaction)
    → find ip active ≡ o
    → Aborts raw ip key active (abort_found raw ip active o)
unfolding abort_found
abort_found-Aborts raw ip key active none h = h
abort_found-Aborts raw ip key active (some t) h = ((t, h, refl), find-update key ip _ active)

-- `AbortFileTransfer` throws exactly if the client has no transaction; otherwise what it sends is
-- what `SendMessage(CXL)` of the client's transaction sends, that one transaction gets the effect
-- of it, and no other changes.
pub abort_file_transfer-Aborts :
    (raw : TrftpMessage) (ip key : Text) (active : Table)
    → Aborts raw ip key active (abort_file_transfer raw ip active)
unfolding abort_file_transfer
abort_file_transfer-Aborts raw ip key active =
    abort_found-Aborts raw ip key active (find ip active) refl
