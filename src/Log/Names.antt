-- ===== src/Log/Names.antt =====
-- The names in the logs: each status has its own, and what one side logs as sent the other logs
-- under the same name.
use Prim.Native.String.{String}
use package.text.Mathlib.Text.{◌==◌}
use trftp.Base.{ℕ, ◌≡◌, refl, ap, ◌∙◌, Option, none, some, List, [], ◌∷◌, ◌++◌, drop, if◌then◌else◌}
use trftp.Message.{
  MessageId, ntf, chk, info, rdy, cxl, data', rtx, done, fin, other, message_id, TrftpMessage, xid,
  u32_bytes,
}
use trftp.Message.Codec.{IsKnown}
use trftp.Wire.{received}
use trftp.ServerTransaction.{
  Address, ServerTransaction, Datagram, Outcome, sent, starts_sender, discarded,
}
use trftp.ServerTransaction
use trftp.ClientTransaction.{ClientTransaction, Effect, sends}
use trftp.ClientTransaction
use trftp.Log.{
  ftp_status_to_string, Item, text, from_client, from_server, header_items, server_recv_log,
  server_send_log, client_recv_log, client_send_log,
}

abbrev or_else : Option MessageId → Option MessageId → Option MessageId
or_else none o = o
or_else (some id) o = some id

abbrev when : String → String → MessageId → Option MessageId
when s name id = if s == name then some id else none

-- The status with a name, by trying them all.
pub status_named : String → Option MessageId
status_named s = or_else (when s "NTF" ntf) (
    or_else (when s "CHK" chk) (
      or_else (when s "INFO" info) (
        or_else (when s "RDY" rdy) (
          or_else (when s "CXL" cxl) (
            or_else (when s "DATA" data')
              (or_else (when s "RTX" rtx) (or_else (when s "DONE" done) (when s "FIN" fin))))))))

-- `FtpStatusToString` gives every status a name of its own: the name leads back to the status.
pub status_named-ftp_status_to_string :
    (id : MessageId) → IsKnown id → status_named (ftp_status_to_string id) ≡ some id
unfolding status_named ftp_status_to_string
status_named-ftp_status_to_string ntf h = refl
status_named-ftp_status_to_string chk h = refl
status_named-ftp_status_to_string info h = refl
status_named-ftp_status_to_string rdy h = refl
status_named-ftp_status_to_string cxl h = refl
status_named-ftp_status_to_string data' h = refl
status_named-ftp_status_to_string rtx h = refl
status_named-ftp_status_to_string done h = refl
status_named-ftp_status_to_string fin h = refl
status_named-ftp_status_to_string (other n) h = elim h [ ]

-- The fourth thing that is put into a line.
pub shown_name : List Item → String
shown_name (a ∷ b ∷ c ∷ text name ∷ rest) = name
shown_name _ = "UNKNOWN"

-- A line that shows the name of a status, and the numbers of a message's header.
pub record Shows (id : MessageId) (m : TrftpMessage) (line : List Item) : Type 0 where
  pub name : shown_name line ≡ ftp_status_to_string id
  pub numbers : drop 9 line ≡ header_items m.header

module _ (inet_ntoa : ℕ → String) (stamp stamp' : String) (stale : TrftpMessage)
    (s : ServerTransaction) (c : ClientTransaction) where
  -- The server's line about a message it has sent, and the client's about its receipt.
  abbrev pub ServerLogs : MessageId → Outcome → Type 0
  ServerLogs id (sent d) =
      Shows id d.msg (server_send_log inet_ntoa stamp d.msg s)
      × Shows id d.msg (client_recv_log inet_ntoa stamp' (received stale d) c)
  ServerLogs id _ = Unit {0}

  -- The client's lines about the messages it has sent, and the server's about their receipt.
  abbrev pub ClientLogs : MessageId → List Effect → Type 0
  ClientLogs id [] = Unit {0}
  ClientLogs id (sends d ∷ es) =
      (Shows id d.msg (client_send_log inet_ntoa stamp d.msg c)
        × Shows id d.msg (server_recv_log inet_ntoa stamp' (received stale d) s))
      × ClientLogs id es
  ClientLogs id (_ ∷ es) = ClientLogs id es

  server_logs :
      (id : MessageId) (bytes : List ℕ) (raw : TrftpMessage) (t : ServerTransaction)
      → message_id (xid id) ≡ id
      → from_server id ≡ ftp_status_to_string id
      → ServerLogs id (ServerTransaction.send_payload id bytes raw t)
  unfolding server_send_log client_recv_log shown_name header_items ServerTransaction.send_payload
      ServerTransaction.complete_header
  server_logs id bytes raw t e n =
      let name = ap from_server e ∙ n in
      (record { name = name; numbers = refl }, record { name = name; numbers = refl })

  client_logs :
      (id : MessageId) (bytes : List ℕ) (raw : TrftpMessage) (addr : Address)
      → message_id (xid id) ≡ id
      → from_client id ≡ ftp_status_to_string id
      → ClientLogs id (ClientTransaction.send_payload id bytes raw addr ∷ [])
  unfolding client_send_log server_recv_log shown_name header_items ClientTransaction.send_payload
  client_logs id bytes raw addr e n =
      let name = ap from_client e ∙ n in
      ((record { name = name; numbers = refl }, record { name = name; numbers = refl }), tt)

  server-ServerLogs :
      (id : MessageId) (raw : TrftpMessage) (t : ServerTransaction)
      → ServerLogs id (ServerTransaction.send_message id raw t).1
  unfolding ServerTransaction.send_message ftp_status_to_string message_id
  server-ServerLogs ntf raw t = server_logs ntf (u32_bytes t.new_file_version) raw _ refl refl
  server-ServerLogs info raw t =
      server_logs info
        (u32_bytes t.new_file_version ++ (u32_bytes t.new_file_size ++ u32_bytes t.new_file_crc32))
        raw _ refl refl
  server-ServerLogs fin raw t = server_logs fin [] raw _ refl refl
  server-ServerLogs cxl raw t = server_logs cxl [] raw _ refl refl
  server-ServerLogs data' raw t = tt
  server-ServerLogs chk raw t = tt
  server-ServerLogs rdy raw t = tt
  server-ServerLogs rtx raw t = tt
  server-ServerLogs done raw t = tt
  server-ServerLogs (other n) raw t = tt

  client-ClientLogs :
      (id : MessageId) (raw : TrftpMessage) (t : ClientTransaction)
      → ClientLogs id (ClientTransaction.send_message id raw t).1
  unfolding ClientTransaction.send_message ftp_status_to_string message_id
  client-ClientLogs chk raw t =
      client_logs chk (u32_bytes t.cur_file_version) raw t.server_address refl refl
  client-ClientLogs rdy raw t =
      client_logs rdy
        (u32_bytes t.new_file_version
          ++ (u32_bytes t.new_file_size ++ u32_bytes t.inter_packet_gap))
        raw t.server_address refl refl
  client-ClientLogs done raw t =
      client_logs done
        (u32_bytes t.new_file_version ++ (u32_bytes t.new_file_size ++ u32_bytes t.new_file_crc32))
        raw t.server_address refl refl
  client-ClientLogs cxl raw t = client_logs cxl [] raw t.server_address refl refl
  client-ClientLogs rtx raw t =
      client_logs rtx (u32_bytes t.packet_sequence_number) raw t.server_address refl refl
  client-ClientLogs ntf raw t = tt
  client-ClientLogs info raw t = tt
  client-ClientLogs data' raw t = tt
  client-ClientLogs fin raw t = tt
  client-ClientLogs (other n) raw t = tt

  -- The lines that `PrintSendLog` and `PrintRecvLog` write for a message of `SendMessage` of the
  -- server or of the client have the name that `FtpStatusToString` gives its identifier.
  send_message-Logged :
      (id : MessageId) (raw : TrftpMessage) (t : ServerTransaction) (u : ClientTransaction)
      → ServerLogs id (ServerTransaction.send_message id raw t).1
        × ClientLogs id (ClientTransaction.send_message id raw u).1
  send_message-Logged id raw t u = (server-ServerLogs id raw t, client-ClientLogs id raw u)
