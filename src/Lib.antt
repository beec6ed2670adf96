-- ===== src/Lib.antt =====
-- The file transfer protocol of trftp: a server that offers a file, a client that receives it, and
-- the messages between them over UDP.
--
-- A server's `StartFileTransfer` drives one `ServerTransaction`: NTF, INFO and DATA commands, each
-- followed by the wait for the client's CHK, RDY and DONE. DATA starts a thread that reads the file
-- and sends it in packets of 1408 bytes; RTX messages of the client move that thread back. A
-- client's listener passes the first NTF to its one `ClientTransaction`, whose own thread then
-- receives the rest, writes the file, checks length and CRC, reports DONE, and calls the
-- application when FIN comes.
--
-- Which file models what (paths from the repository's root):
--   Message            include/trftp/common.h: identifiers, header, message, its bytes
--   Message/Codec      identifiers and words, there and back
--   Crc                src/util.cpp: crc32_table, CalculateCrc32, CalculateFileCrc32
--   Crc/Reference      the bit-serial CRC-32, and the table against it
--   Crc/File           the file's CRC in chunks
--   Integrity          ValidateMessageIntegrity of both transactions
--   Wire               a datagram in the receive buffer of the other side
--   ServerTransaction  src/server/server_transaction.cpp: constructor, SendMessage, OnReceive,
--                      CompleteHeader, the overloads of ValidateMessage
--   ServerTransaction/Sender   SendFileAsync as a step function, cut where another thread may
--                      change the shared atomics; Run: the thread alone, and its way back to a
--                      requested packet; Tail: requests near the end of the file; Stop: a
--                      cancelled transfer
--   ServerTransaction/Created, Receive, Header   what the constructor gives, what OnReceive does,
--                      what SendMessage sends
--   ServerTransaction/Threads  the three threads on one transaction as a step relation
--   ClientTransaction  src/client/client_transaction.cpp: every handler of OnReceive, SendMessage,
--                      Begin, Reset, HandleIncomingMessages; a handler gives a new state and a list
--                      of effects
--   ClientTransaction/Quiet   when a transaction is not alive
--   Client             src/client/client.cpp: the listener and the file handler
--   Client/Threads     the listener and the receiving thread on the one transaction as a step
--                      relation: Opens, Sound, Invariant; Missed: a lost notification;
--                      Window: a time-out while Reset waits for the old thread
--   Server             src/server/server.cpp and WaitForStatus: the table of active transactions,
--                      routing, AbortFileTransfer, StartFileTransfer over the events in its waits
--   Server/Table, Uri, Waits, Drive, Results, Answers, Missed   the table's entries, the address of
--                      a client, the events of a wait, and how a call of StartFileTransfer ends
--   Server/Failing     StartFileTransfer with a send that throws; Blocked: what becomes of the table
--   Server/Threads     the calls and threads that share the table as a step relation: Map,
--                      Exclusive, Mirrors, Entries, Invariant; Calls, Courses, Finished: one call
--                      among the others; Dangling: an iterator whose entry is erased
--   Server/Lifetime    the constructor and the destructor, and the listening thread between them
--   UdpSocket          src/udp_socket.cpp: constructor, destructor, SetReadTimeout, Receive, Send;
--                      Bytes, Sizes: datagrams as bytes; Guard: descriptors; Rounds: the loop
--                      around Receive of a listening thread
--   Server/Listen, Client/Listen   the listening threads over their sockets
--   Log                FtpStatusToString, PrintSendLog, PrintRecvLog; Names; Streams:
--                      src/thread_safe_log.cpp, Streams/Mutexes; Targets, Writers: the threads
--                      that make, fill and destroy streams as a step relation
--   Localhost          examples/localhost: Sending, Receiving, its two programs
--   Transfer           both sides together: the packets without losses (Packet, Data, File, Done),
--                      an abstract receiver for any course of packets (Receiver), a repaired loss
--                      (Recovery, Loss), and StartFileTransfer with a client from NTF to FIN,
--                      through both listeners (Session)
--   Tests              examples
--
-- Numbers are natural numbers; where the source computes in uint32_t the remainder by 2^32 is
-- written out. A file is a list of bytes and a disk a function from paths. An uninitialised local
-- message, the rest of a receive buffer, and whether a file can be opened or written are arguments.
--
-- Bounds and fuel: the read loop of CalculateFileCrc32 has one round more than the file has bytes,
-- and reads a byte at least in each round but the last. The sending thread runs for a number of
-- steps; five for a packet and three more are enough for a whole file. The client's receive loop
-- and its listener run over the list of what their rounds receive.
--
-- A wait of StartFileTransfer runs over the events that other threads cause in it, each with whether
-- it wakes the waiting thread. Server/Threads has any number of calls under way.
--
-- A listening thread runs over rounds: whether it is still running, and what the kernel answers to
-- its receive. What the kernel answers to a socket's other calls is an argument as well.
--
-- In the step relations the operations of the table, of a mutex and of a transaction's handlers are
-- one step each, but for a retransmission request, whose check and store are two, and for the calls
-- of Begin, StartFileTransfer and AbortFileTransfer, which are cut as their files say. A call of
-- StartFileTransfer takes 13 steps at most to its `erase`, and six are enough for the sending thread
-- of a cancelled transfer.
--
-- Not modelled: a send that fails within a transaction, but for those of StartFileTransfer and those
-- to port 0 in Client/Threads, so that Begin's send in the listening thread cannot fail in
-- Client/Listen; that SendMessage and OnReceive write to the log, whose lines stand apart in Log;
-- durations; the start of the client's listening thread in its constructor, and the destructor of a
-- ServerTransaction; the time stamps and number formats of the log; and what the receiving example
-- prints.
pub mod Base
pub mod Message
pub mod Crc
pub mod Integrity
pub mod ServerTransaction
pub mod ClientTransaction
pub mod Wire
pub mod Transfer
pub mod Client
pub mod UdpSocket
pub mod Server
pub mod Log
pub mod Localhost
pub mod Tests
