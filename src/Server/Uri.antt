-- ===== src/Server/Uri.antt =====
-- `StartFileTransfer` on an address and a port that are joined by a colon.
use mathlib.Core.Path.{ap₂}
use Prim.Native.String.{String}
use trftp.Base.{
  ℕ, suc, ◌+◌, ◌%◌, ◌<◌, ◌≡◌, ◌≢◌, refl, ap, ◌∙◌, arith, true, false, Option, none, some, [], ◌∷◌,
  ◌++◌, leb, not, if◌then◌else◌, if-false, length, drop, take-append_exact, ne→==,
}
use trftp.ServerTransaction.{Disk, ServerTransaction, create}
use trftp.Server.{
  Text, Table, find, erase, Course, drive, Answer, throws, returns, invalid_ip, file_not_found,
  exists, find_colon, next_position, start_found, start_created, start_with_port, start_at,
  start_file_transfer,
}

abbrev pub NoColon : Text → Type 0
NoColon [] = Unit {0}
NoColon (c ∷ cs) = (c ≢ 58) × NoColon cs

find_colon-append :
    (ip port : Text) → NoColon ip → find_colon (ip ++ (58 ∷ port)) ≡ some (length ip)
unfolding find_colon next_position
find_colon-append [] port h = refl
find_colon-append (c ∷ cs) port (n, h) =
    if-false _ _ (ne→== c 58 n) ∙ ap next_position (find_colon-append cs port h)

drop-append_suc : (ip port : Text) → drop (suc (length ip)) (ip ++ (58 ∷ port)) ≡ port
drop-append_suc [] port = refl
drop-append_suc (c ∷ cs) port = drop-append_suc cs port

port_of : (ip port : Text) → drop (length ip + 1) (ip ++ (58 ∷ port)) ≡ port
port_of ip port =
    let e : length ip + 1 ≡ suc (length ip) = omega arith in
    ap (λ n. drop n (ip ++ (58 ∷ port))) e ∙ drop-append_suc ip port

-- A table without entries.
pub find_nothing {ℓ} : {A : Type ℓ} (ip : Text) → find {A = A} ip [] ≡ none
unfolding find
find_nothing ip = refl

module _ (stoi : Text → Option ℕ) (inet_addr : Text → ℕ) (disk : Disk) (c : Course) (path : String)
    (version device : ℕ) (active : Table) where
  -- Behind the search for the colon, over the two parts.
  abbrev pub from_parts : Text → Text → Table × Answer
  from_parts ip port =
      if leb 16 (length ip)
      then (active, throws invalid_ip)
      else if not (exists (disk path))
      then (active, throws file_not_found)
      else start_with_port stoi inet_addr disk c ip path version device active (stoi port)

  start_found_parts :
      (ip port : Text) (p : ℕ) (t : ServerTransaction)
      → length ip < 16
      → exists (disk path) ≡ true
      → stoi port ≡ some p
      → create disk (record { ip = inet_addr ip; port = p % 65536 }) path version device ≡ some t
      → find ip active ≡ none
      → from_parts ip port ≡ (erase ip ((ip, t) ∷ active), returns (drive c t))
  unfolding start_with_port start_created start_found
  start_found_parts ip port p t short there number made free =
      let fits : leb 16 (length ip) ≡ false = ground arith in
      if-false _ _ fits
      ∙ if-false _ _ (ap not there)
      ∙ ap (start_with_port stoi inet_addr disk c ip path version device active) number
      ∙ ap (start_created stoi inet_addr c ip active) made
      ∙ ap (λ o. start_found stoi inet_addr c ip active o t) free

  -- The two sides of the colon.
  pub start_file_transfer-parts :
      (ip port : Text)
      → NoColon ip
      → start_file_transfer stoi inet_addr disk c (ip ++ (58 ∷ port)) path version device active
        ≡ from_parts ip port
  unfolding start_file_transfer start_at
  start_file_transfer-parts ip port plain =
      ap (start_at stoi inet_addr disk c (ip ++ (58 ∷ port)) path version device active)
        (find_colon-append ip port plain)
      ∙ ap₂ from_parts (take-append_exact (length ip) ip (58 ∷ port) refl) (port_of ip port)

  -- On an address without a colon and of at most 15 characters, a colon, and a port that can be
  -- read, for a file that exists and a client with no active transaction, the call drives the
  -- transaction that is created for this address and port, and gives its end.
  pub start_file_transfer-append :
      (ip port : Text) (p : ℕ) (t : ServerTransaction)
      → NoColon ip
      → length ip < 16
      → exists (disk path) ≡ true
      → stoi port ≡ some p
      → create disk (record { ip = inet_addr ip; port = p % 65536 }) path version device ≡ some t
      → find ip active ≡ none
      → start_file_transfer stoi inet_addr disk c (ip ++ (58 ∷ port)) path version device active
        ≡ (erase ip ((ip, t) ∷ active), returns (drive c t))
  start_file_transfer-append ip port p t plain short there number made free =
      start_file_transfer-parts ip port plain
      ∙ start_found_parts ip port p t short there number made free
