-- ===== src/Tests/SocketTests.antt =====
-- The socket on concrete answers of the kernel, and the datagrams of a file of 1409 bytes.
use trftp.Base.{◌≡◌, ◌++◌, arith, none, some, [], ◌∷◌}
use trftp.Message.{ntf}
use trftp.Wire.{received}
use trftp.ServerTransaction.{ServerTransaction, Datagram}
use trftp.ServerTransaction
use trftp.ServerTransaction.Sender.{data_packet}
use trftp.ServerTransaction.Sender.Run.{chunk}
use trftp.ClientTransaction.{datagram}
use trftp.ClientTransaction
use trftp.UdpSocket.{Kernel, other, eagain, new_socket, receive, got, returns}
use trftp.UdpSocket.Bytes.{IsTransmittable, wire_bytes, receive-sent}
use trftp.UdpSocket.Guard.{held, new_socket_accounts}
use trftp.UdpSocket.Sizes.{Transmits, AllTransmit, send_message-Transmits, packet-IsTransmittable}
use trftp.Tests.{raw_message, some_address}
use trftp.Tests.TransferTests.{file, server, client, server-IsReady}

abbrev first_packet : Datagram
first_packet = data_packet server raw_message 0 (chunk file 0)

transmittable : IsTransmittable first_packet
transmittable = packet-IsTransmittable server file raw_message 0 server-IsReady (omega arith)

receive-sent_example :
    receive raw_message (got (wire_bytes first_packet) some_address)
    ≡ returns (datagram (received raw_message first_packet) first_packet.len some_address)
receive-sent_example = receive-sent raw_message first_packet some_address transmittable

send_message-Transmits_example :
    Transmits (ServerTransaction.send_message ntf raw_message server).1
    × AllTransmit (ClientTransaction.send_message ntf raw_message client).1
send_message-Transmits_example = send_message-Transmits ntf raw_message server client

-- The port is taken.
abbrev port_taken : Kernel
port_taken = record {
  descriptor = some 5;
  socket_errno = eagain;
  timeout_error = none;
  reuse_error = none;
  bind_error = some (other 98);
}

new_socket_accounts_example : (new_socket port_taken).1 ++ held (new_socket port_taken).0 ≡ 5 ∷ []
new_socket_accounts_example = new_socket_accounts port_taken
