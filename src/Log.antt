-- ===== src/Log.antt =====
-- What the two sides write to their logs: `FtpStatusToString` of src/util.cpp, `PrintRecvLog` and
-- `PrintSendLog` of src/server/server_transaction.cpp and src/client/client_transaction.cpp. A line
-- is what `<<` puts in, in order; numbers stand with the base that `std::hex` and `std::dec` have
-- set. The time stamp in front comes with each line as a text.
pub mod Names
pub mod Streams
pub mod Targets
pub mod Writers
use Prim.Native.String.{String}
use trftp.Base.{ℕ, List, [], ◌∷◌, ◌++◌}
use trftp.Message.{
  MessageId, ntf, chk, info, rdy, cxl, data', rtx, done, fin, other, message_id, TrftpHeader,
  TrftpMessage,
}
use trftp.ServerTransaction.{Address, ServerTransaction}
use trftp.ClientTransaction.{ClientTransaction}

-- `FtpStatusToString(status)`.
pub ftp_status_to_string : MessageId → String
ftp_status_to_string ntf = "NTF"
ftp_status_to_string chk = "CHK"
ftp_status_to_string info = "INFO"
ftp_status_to_string rdy = "RDY"
ftp_status_to_string cxl = "CXL"
ftp_status_to_string data' = "DATA"
ftp_status_to_string rtx = "RTX"
ftp_status_to_string done = "DONE"
ftp_status_to_string fin = "FIN"
ftp_status_to_string (other n) = "UNKNOWN"

-- `id_str` of a message that comes from the client: in the server's `PrintRecvLog`, and in the
-- client's `PrintSendLog`.
abbrev pub from_client : MessageId → String
from_client chk = "CHK"
from_client rdy = "RDY"
from_client rtx = "RTX"
from_client done = "DONE"
from_client cxl = "CXL"
from_client _ = "UNKNOWN"

-- And of one that comes from the server: in the server's `PrintSendLog`, and in the client's
-- `PrintRecvLog`.
abbrev pub from_server : MessageId → String
from_server ntf = "NTF"
from_server info = "INFO"
from_server data' = "DATA"
from_server fin = "FIN"
from_server cxl = "CXL"
from_server _ = "UNKNOWN"

pub data Item : Type 0 where
  text : String → Item
  decimal hexadecimal : ℕ → Item
  endl : Item

-- The colours' escape sequences.
abbrev yellow : Item
yellow = text "\u{1b}[33m"

abbrev reset_colour : Item
reset_colour = text "\u{1b}[0m"

-- The end of each of the four lines.
pub header_items : TrftpHeader → List Item
header_items h =
    text "> (xid="
    ∷ hexadecimal h.xid
    ∷ text ", tpn="
    ∷ decimal h.tpn
    ∷ text ", psn="
    ∷ decimal h.psn
    ∷ text ", tpl="
    ∷ decimal h.tpl
    ∷ text ", pl="
    ∷ decimal h.pl
    ∷ text ")"
    ∷ endl
    ∷ []

-- `inet_ntoa` writes an address as a text.
module _ (inet_ntoa : ℕ → String) where
  message_line : String → String → String → String → Address → TrftpHeader → List Item
  unfolding header_items
  message_line stamp verb name preposition peer h =
      (text stamp
        ∷ text verb
        ∷ yellow
        ∷ text name
        ∷ reset_colour
        ∷ text preposition
        ∷ text (inet_ntoa peer.ip)
        ∷ text ":"
        ∷ decimal peer.port
        ∷ [])
      ++ header_items h

  -- The server's `PrintRecvLog(msg)`.
  pub server_recv_log : String → TrftpMessage → ServerTransaction → List Item
  unfolding message_line
  server_recv_log stamp msg t =
      message_line stamp "recv " (from_client (message_id msg.header.xid)) " from <"
        t.client_address msg.header

  -- The server's `PrintSendLog(msg)`.
  pub server_send_log : String → TrftpMessage → ServerTransaction → List Item
  unfolding message_line
  server_send_log stamp msg t =
      message_line stamp "send " (from_server (message_id msg.header.xid)) " to <" t.client_address
        msg.header

  -- The client's `PrintRecvLog(msg)`.
  pub client_recv_log : String → TrftpMessage → ClientTransaction → List Item
  unfolding message_line
  client_recv_log stamp msg t =
      message_line stamp "recv " (from_server (message_id msg.header.xid)) " from <"
        t.server_address msg.header

  -- The client's `PrintSendLog(msg)`.
  pub client_send_log : String → TrftpMessage → ClientTransaction → List Item
  unfolding message_line
  client_send_log stamp msg t =
      message_line stamp "send " (from_client (message_id msg.header.xid)) " to <" t.server_address
        msg.header
