-- ===== src/Tests/ClientTests.antt =====
-- The client's receive loop and its listener on concrete messages.
use trftp.Base.{ℕ, ◌≡◌, refl, true, false, some, none, List, [], ◌∷◌, inl, inr}
use trftp.Message.{ntf, done, fin, xid, message_id, TrftpMessage, message_bytes, header_bytes}
use trftp.Crc.{calculate_crc32, calculate_file_crc32, crc_round, crc_loop, crc32_table}
use trftp.Integrity.{validate_message_integrity}
use trftp.Wire.{received}
use trftp.ClientTransaction.{
  ClientTransaction, Env, Received, datagram, new_transaction, worker, worker_round, on_receive,
  dispatch, on_fin,
}
use trftp.ClientTransaction.Sending.{control, control-validate}
use trftp.ClientTransaction.Invariant.{Inv, Verified}
use trftp.ClientTransaction.Delivery.{delivers, worker-delivers-Verified}
use trftp.Client.{Client, new_client, listen_round, listen}
use trftp.Client.Stuck.{starts, corrupt_notification_blocks}
use trftp.Tests.{raw_message, some_address, some_env, receiving}

abbrev file : List ℕ
file = 1 ∷ 2 ∷ 3 ∷ []

-- A client that has reported its file.
abbrev reported : ClientTransaction
reported = record (receiving done 1 3 (calculate_file_crc32 (some file)) file) {
  stream_open = false;
}

reported-Inv : Inv reported
reported-Inv = record {
  writing = λ h. elim h [ inl e ↦ cc | inr e ↦ cc ];
  file_there = λ h. cc;
  verified = λ h. (refl, refl, refl);
}

abbrev fin_message : TrftpMessage
fin_message = received raw_message (control fin [] raw_message some_address)

abbrev rounds : List (Env × Received)
rounds = (some_env, datagram fin_message 32 some_address) ∷ []

fin-validate : validate_message_integrity fin_message 32 ≡ true
fin-validate = control-validate raw_message fin [] raw_message some_address

rounds-delivers : delivers (worker rounds reported).1 ≡ true
unfolding worker worker_round on_receive dispatch on_fin message_id
rounds-delivers = rw fin-validate refl

worker-delivers-Verified_example :
    ((worker rounds reported).0.status ≡ fin) × Verified (worker rounds reported).0
worker-delivers-Verified_example =
    worker-delivers-Verified rounds reported reported-Inv rounds-delivers

abbrev fresh : ClientTransaction
fresh = new_transaction true 1 none

-- A message that says NTF and is otherwise empty.
abbrev corrupt : TrftpMessage
corrupt = record raw_message { header = record (raw_message.header) { xid = xid ntf } }

fresh-status : fresh.status ≡ fin
unfolding new_transaction
fresh-status = refl

corrupt-validate : validate_message_integrity corrupt 32 ≡ false
unfolding validate_message_integrity calculate_crc32 crc_round crc_loop crc32_table message_bytes
    header_bytes
corrupt-validate = refl

abbrev listener : Client
listener = new_client 1 none

listener_idle : listener.transaction.is_active ≡ false
unfolding new_client new_transaction
listener_idle = refl

corrupt-ntf : message_id corrupt.header.xid ≡ ntf
unfolding message_id
corrupt-ntf = refl

corrupt_notification_blocks_example :
    let (u, es) = listen_round some_env (datagram corrupt 32 some_address) listener in
    (starts es ≡ false)
    × (u.transaction.thread ≡ false)
    × (u.transaction.status ≡ listener.transaction.status)
    × (listen rounds u ≡ (u, []))
corrupt_notification_blocks_example =
    corrupt_notification_blocks some_env corrupt 32 some_address listener rounds listener_idle
      corrupt-ntf corrupt-validate
