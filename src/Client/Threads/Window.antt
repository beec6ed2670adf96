-- ===== src/Client/Threads/Window.antt =====
-- A time-out of the old receiving thread while `Reset` has cleared the fields and waits for it.
use trftp.ClientTransaction.{ClientTransaction}
