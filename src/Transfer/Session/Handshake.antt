-- ===== src/Transfer/Session/Handshake.antt =====
-- NTF and INFO with the client's answers: each side's state after each message.
use mathlib.Core.Path.{ap₂}
use trftp.Base.{
  ℕ, ◌+◌, ◌-◌, ◌/◌, ◌<◌, ◌≡◌, refl, sym, ap, ◌∙◌, arith, true, false, not, some, List, [], ◌∷◌,
  ◌++◌, length, drop, u32, u32_mod, if◌then◌else◌, if-true, if-false, ne→==, eq→==,
}
use trftp.Message.{
  ntf, chk, info, rdy, done, fin, same, TrftpMessage, payload_size, u32_bytes, word_at,
}
use trftp.Message.Codec.{message_id-xid, word_at_first, word_at_second, word_at_third}
use trftp.Wire.{received}
use trftp.ServerTransaction.{Address, Datagram, ServerTransaction, sent, clamp_gap}
use trftp.ServerTransaction
use trftp.ClientTransaction.{
  ClientTransaction, Env, Effect, sends, starts_thread, joins_thread, file_received, on_fin, Result,
  begin, reset, on_ntf, on_info, accept_info, join_effects, after,
}
use trftp.ClientTransaction
use trftp.ClientTransaction.Sending.{control, control-validate}
use trftp.Transfer.Session.{opens, hears}
use trftp.Transfer.Session.Controls.{command, command-payload, command-id, on_receive-command}

-- The client behind the server's NTF.
abbrev pub notified : ServerTransaction → Address → ClientTransaction → ClientTransaction
notified s addr u = record u {
  is_active = true;
  status = chk;
  server_address = addr;
  thread = true;
  total_packet_number = 0;
  packet_sequence_number = 0;
  stream_open = false;
  new_file_version = s.new_file_version;
  new_file_size = 0;
  new_file_crc32 = 0;
}

-- The client's CHK.
abbrev pub chk_of : Env → Address → ClientTransaction → Datagram
chk_of env addr u = control chk (u32_bytes u.cur_file_version) env.raw addr

on_ntf-begun :
    (env : Env) (p : List ℕ) (version : ℕ) (u : ClientTransaction)
    → env.on_thread ≡ false
    → word_at 0 p ≡ version
    → u.thread ≡ false
    → on_ntf env p 4 u ≡ (
      record u { status = chk; new_file_version = version; thread = true },
      starts_thread ∷ sends (chk_of env u.server_address u) ∷ [],
    )
unfolding on_ntf ClientTransaction.send_message
on_ntf-begun env p version u e w j = rw (e, w, j, on_ntf) refl

-- The client's listener at NTF.
pub opens-ntf :
    (env : Env) (stale raw : TrftpMessage) (s : ServerTransaction) (addr : Address)
    (u : ClientTransaction)
    → u.is_active ≡ false
    → s.new_file_version < u32_mod
    → opens env stale addr (ServerTransaction.send_message ntf raw s).1 u
      ≡ (notified s addr u, join_effects u ++ (starts_thread ∷ sends (chk_of env addr u) ∷ []))
unfolding opens ServerTransaction.send_message ServerTransaction.send_payload begin reset
    ClientTransaction.dispatch
opens-ntf env stale raw s addr u idle h =
    let s1 = record s { status = ntf } in
    let d = command ntf (u32_bytes s.new_file_version) raw s1 in
    let env' = record env { on_thread = false } in
    let u' = record u {
      is_active = true;
      server_address = record { ip = 0; port = 0 };
      thread = false;
      total_packet_number = 0;
      packet_sequence_number = 0;
      stream_open = false;
      new_file_version = 0;
      new_file_size = 0;
      new_file_crc32 = 0;
    } in
    rw (idle, command-id stale ntf (u32_bytes s.new_file_version) raw s1 tt)
      (ap (λ (x : Result). after (join_effects u) x)
        (on_receive-command env' stale ntf (u32_bytes s.new_file_version) raw s1 addr u' tt
            (omega arith)
          ∙ on_ntf-begun env' (received stale d).payload s.new_file_version
              (record u' { server_address = addr }) refl
              (ap (word_at 0) (command-payload stale ntf (u32_bytes s.new_file_version) raw s1)
                ∙ word_at_first s.new_file_version (drop 4 stale.payload) h)
              refl))

-- The client behind the server's INFO.
abbrev pub informed : ServerTransaction → Address → ClientTransaction → ClientTransaction
informed s addr u = record u {
  status = rdy;
  server_address = addr;
  total_packet_number = u32 ((s.new_file_size + payload_size - 1) / payload_size);
  stream_open = true;
  new_file = some [];
  new_file_size = s.new_file_size;
  new_file_crc32 = s.new_file_crc32;
}

abbrev pub info_bytes : ServerTransaction → List ℕ
info_bytes s =
    u32_bytes s.new_file_version ++ (u32_bytes s.new_file_size ++ u32_bytes s.new_file_crc32)

abbrev pub rdy_of : Env → ClientTransaction → Datagram
rdy_of env u =
    control rdy
      (u32_bytes u.new_file_version ++ (u32_bytes u.new_file_size ++ u32_bytes u.inter_packet_gap))
      env.raw u.server_address

accept_info-opened :
    (env : Env) (p : List ℕ) (s : ServerTransaction) (u : ClientTransaction)
    → env.open_ok ≡ true
    → word_at 4 p ≡ s.new_file_size
    → word_at 8 p ≡ s.new_file_crc32
    → accept_info env p u
      ≡ (informed s u.server_address u, sends (rdy_of env (informed s u.server_address u)) ∷ [])
unfolding accept_info ClientTransaction.send_message ClientTransaction.send_payload
accept_info-opened env p s u o z c =
    if-false _ _ (ap not o)
    ∙ ap₂
        (λ size crc.
          let v : ClientTransaction = record u {
            status = rdy;
            total_packet_number = u32 ((size + payload_size - 1) / payload_size);
            stream_open = true;
            new_file = some [];
            new_file_size = size;
            new_file_crc32 = crc;
          } in
          let x : Result = (v, sends (rdy_of env v) ∷ []) in x)
        z c

on_info-accepted :
    (env : Env) (p : List ℕ) (s : ServerTransaction) (u : ClientTransaction)
    → env.open_ok ≡ true
    → u.status ≡ chk
    → u.new_file_version ≡ word_at 0 p
    → word_at 4 p ≡ s.new_file_size
    → word_at 8 p ≡ s.new_file_crc32
    → 0 < s.new_file_size
    → on_info env p 12 u
      ≡ (informed s u.server_address u, sends (rdy_of env (informed s u.server_address u)) ∷ [])
unfolding on_info
on_info-accepted env p s u o st v z c pos =
    if-false _ _ (ap (λ id. not (same id chk)) st)
    ∙ if-false _ _ (ap not (eq→== u.new_file_version (word_at 0 p) v))
    ∙ if-false _ _ (ne→== (word_at 4 p) 0 (omega (arith, z)))
    ∙ accept_info-opened env p s u o z c

-- The client's transaction at INFO.
pub hears-info :
    (env : Env) (stale raw : TrftpMessage) (s : ServerTransaction) (addr : Address)
    (u : ClientTransaction)
    → u.is_active ≡ true
    → env.open_ok ≡ true
    → u.status ≡ chk
    → (u.new_file_version ≡ s.new_file_version) × (s.new_file_version < u32_mod)
    → (0 < s.new_file_size) × (s.new_file_size < u32_mod)
    → s.new_file_crc32 < u32_mod
    → hears env stale addr (ServerTransaction.send_message info raw s).1 u
      ≡ (informed s addr u, sends (rdy_of env (informed s addr u)) ∷ [])
unfolding hears ServerTransaction.send_message ServerTransaction.send_payload
    ClientTransaction.dispatch
hears-info env stale raw s addr u alive o st v z c =
    let s' = record s { status = info } in
    let p = (received stale (command info (info_bytes s) raw s')).payload in
    let e = command-payload stale info (info_bytes s) raw s' in
    let rest = drop 12 stale.payload in
    let ver = s.new_file_version in
    let size = s.new_file_size in
    if-true _ _ alive
    ∙ on_receive-command env stale info (info_bytes s) raw s' addr u tt (omega arith)
    ∙ on_info-accepted env p s (record u { server_address = addr }) o st
        (v.0 ∙ sym (ap (word_at 0) e ∙ word_at_first ver (drop 4 (info_bytes s ++ rest)) v.1))
        (ap (word_at 4) e ∙ word_at_second ver size (drop 8 (info_bytes s ++ rest)) z.1)
        (ap (word_at 8) e ∙ word_at_third ver size s.new_file_crc32 rest c) z.0

-- The server at the client's answers.
pub takes-chk :
    (stale raw : TrftpMessage) (bytes : List ℕ) (to from : Address) (t : ServerTransaction)
    → t.status ≡ ntf
    → length bytes ≡ 4
    → let d = control chk bytes raw to in
      ServerTransaction.on_receive (received stale d) d.len from t ≡ record t {
        client_address = from;
        cur_file_version = word_at 0 (received stale d).payload;
        status = chk;
      }
unfolding ServerTransaction.on_receive
takes-chk stale raw bytes to from t s n =
    rw
      (control-validate stale chk bytes raw to, message_id-xid chk tt, ServerTransaction.on_receive)
      (unfold ServerTransaction.dispatch in (ground arith))

pub takes-rdy :
    (stale raw : TrftpMessage) (bytes : List ℕ) (to from : Address) (t : ServerTransaction)
    → t.status ≡ info
    → length bytes ≡ 12
    → let d = control rdy bytes raw to in
      ServerTransaction.on_receive (received stale d) d.len from t ≡ record t {
        client_address = from;
        inter_packet_gap = clamp_gap (word_at 8 (received stale d).payload);
        status = rdy;
      }
unfolding ServerTransaction.on_receive
takes-rdy stale raw bytes to from t s n =
    rw
      (control-validate stale rdy bytes raw to, message_id-xid rdy tt, ServerTransaction.on_receive)
      (unfold ServerTransaction.dispatch in (ground arith))

-- The client's transaction at FIN.
pub hears-fin :
    (env : Env) (stale raw : TrftpMessage) (s : ServerTransaction) (addr : Address)
    (u : ClientTransaction)
    → u.is_active ≡ true
    → u.status ≡ done
    → hears env stale addr (ServerTransaction.send_message fin raw s).1 u ≡ (
      record u { server_address = addr; status = fin; is_active = false },
      if u.has_client then file_received u.new_file_version ∷ [] else [],
    )
unfolding hears ServerTransaction.send_message ServerTransaction.send_payload
    ClientTransaction.dispatch on_fin
hears-fin env stale raw s addr u alive h =
    if-true _ _ alive
    ∙ on_receive-command env stale fin [] raw (record s { status = fin }) addr u tt (omega arith)
    ∙ if-false _ _ (ap (λ id. not (same id done)) h)
