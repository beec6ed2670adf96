-- ===== src/Localhost/Receiving.antt =====
-- The program that receives a file, and its wait.
use Prim.Native.String.{String}
use trftp.Base.{ℕ, ◌≤◌, ◌≡◌, refl, true, Option, some, List, [], ◌∷◌}
use trftp.Server.{Text}
use trftp.Localhost.{
  ℤ, pos, Event, received, spurious, renamed, rename_all, wait_for, receive_at, client_main,
}
use trftp.Localhost.Sending.{valid_port}

-- The handler was called at last with this file.
abbrev pub last_file : Option (List ℕ) → List Event → Option (List ℕ)
last_file old [] = old
last_file old (received content version ∷ es) = last_file content es
last_file old (spurious ∷ es) = last_file old es

rename_all-last_file :
    (es : List Event) (old : Option (List ℕ)) → rename_all es old ≡ last_file old es
unfolding rename_all renamed
rename_all-last_file [] old = refl
rename_all-last_file (received content version ∷ es) old = rename_all-last_file es content
rename_all-last_file (spurious ∷ es) old = rename_all-last_file es old

-- The program that receives a file, for an argument that names a port from 1024 to 65535, and a
-- socket that can be opened. If files come before it waits, and nothing comes within the wait: the
-- last of them is there, and the program exits with 1. If the wait wakes up for
-- no reason before a file comes: it exits with 0, and there is no new file.
pub client_main-misleads :
    (chars : String → Text) (stoi : Text → Option ℤ) (port : String) (n : ℕ)
    (before during : List Event) (old : Option (List ℕ))
    → stoi (chars port) ≡ some (pos n)
    → 1024 ≤ n
    → n ≤ 65535
    → (client_main chars stoi true before [] old (port ∷ [])
        ≡ record { received_file = last_file old before; exit_code = some 1 })
      × (client_main chars stoi true [] (spurious ∷ during) old (port ∷ [])
          ≡ record { received_file = old; exit_code = some 0 })
unfolding client_main receive_at wait_for rename_all renamed
client_main-misleads chars stoi port n before during old number low high =
    rw (number, valid_port n low high, rename_all-last_file before old) (refl, refl)
