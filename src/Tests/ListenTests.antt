-- ===== src/Tests/ListenTests.antt =====
-- The server's listening thread over a time-out, a datagram of one byte, and an empty datagram.
use trftp.Base.{ℕ, true, List, [], ◌∷◌}
use trftp.UdpSocket.{eagain, failed, got}
use trftp.UdpSocket.Rounds.{Round, failure}
use trftp.Server.{Text, Table}
use trftp.Server.Listen.{serve, inbox, Serves, serve-Serves}
use trftp.Tests.{raw_message, some_address}
use trftp.Tests.TransferTests.{server}

abbrev waited : Round
waited = record { running = true; raw = raw_message; answer = failed eagain }

abbrev heard_byte : Round
heard_byte = record { running = true; raw = raw_message; answer = got (7 ∷ []) some_address }

abbrev empty_datagram : Round
empty_datagram = record { running = true; raw = raw_message; answer = got [] some_address }

abbrev course : List Round
course = waited ∷ heard_byte ∷ empty_datagram ∷ heard_byte ∷ []

abbrev ntoa : ℕ → Text
ntoa n = 49 ∷ []

abbrev active : Table
active = (49 ∷ [], server) ∷ []

serve-Serves_example :
    Serves ntoa
      (49 ∷ [])
      (inbox ntoa (49 ∷ []) course)
      (failure course)
      active
      (serve ntoa course active)
serve-Serves_example = serve-Serves ntoa (49 ∷ []) course active
