-- ===== src/Transfer/Session/Prepared.antt =====
-- A session up to the DATA command.
use trftp.Base.{
  ℕ, ◌+◌, ◌-◌, ◌/◌, ◌<◌, ◌≤◌, ◌≡◌, refl, sym, ap, ◌∙◌, arith, Bool, true, false, some, List, [],
  ◌∷◌, ◌++◌, length, u32_mod, u32_max, if◌then◌else◌, if-true, subst,
}
use trftp.Message.{ntf, chk, info, rdy, data', payload_size, u32_bytes, word_at}
use trftp.Crc.{calculate_file_crc32}
use trftp.Crc.File.{calculate_file_crc32-eq, calculate_crc32-lt}
use trftp.Wire.{received}
use trftp.ServerTransaction.{Address, Disk, Datagram, ServerTransaction, Outcome, clamp_gap}
use trftp.ServerTransaction
use trftp.ServerTransaction.Sender.Run.{IsReady}
use trftp.ClientTransaction.{
  ClientTransaction, Effect, sends, starts_thread, joins_thread, Result, join_effects,
}
use trftp.Server.{same_text}
use trftp.Server.Table.{same_text_refl}
use trftp.Transfer.Data.{HasReceived, IsCarried}
use trftp.Transfer.Session.{Setup, is_found, opens, hears, answers, reaches, handshake}
use trftp.Transfer.Session.Handshake.{
  notified, informed, chk_of, rdy_of, opens-ntf, hears-info, takes-chk, takes-rdy,
}

-- A transaction that has not sent anything yet, for the file c.
pub record IsFresh (s : ServerTransaction) (c : List ℕ) : Type 0 where
  pub no_request : s.retransmit_psn ≡ u32_max
  pub size : length c ≡ s.new_file_size
  pub count : s.total_packet_number ≡ (s.new_file_size + payload_size - 1) / payload_size
  pub small : s.new_file_size + payload_size ≤ u32_max
  pub checksum : s.new_file_crc32 ≡ calculate_file_crc32 (some c)
  pub version : s.new_file_version < u32_mod

-- The client has no active transaction, and the server finds its own for the client's messages.
pub record IsWired (x : Setup) (u : ClientTransaction) : Type 0 where
  pub idle : u.is_active ≡ false
  pub known : x.inet_ntoa x.client.ip ≡ x.ip

pub is_found_wired : (x : Setup) → x.inet_ntoa x.client.ip ≡ x.ip → is_found x ≡ true
is_found_wired x e = ap (same_text x.ip) e ∙ same_text_refl x.ip

-- The server behind the client's CHK and RDY.
abbrev pub prepared : Setup → ServerTransaction → ClientTransaction → ServerTransaction
prepared x s u =
    let chk_msg = received (x.stales 1) (chk_of (x.opening 0) x.server u) in
    let v = informed s x.server (notified s x.server u) in
    let rdy_msg = received (x.stales 1) (rdy_of (x.opening 1) v) in
    record s {
      client_address = x.client;
      cur_file_version = word_at 0 chk_msg.payload;
      inter_packet_gap = clamp_gap (word_at 8 rdy_msg.payload);
      status = rdy;
    }

reaches-joined :
    (x : Setup) (b : Bool) (es : List Effect) (t : ServerTransaction)
    → reaches x ((if b then joins_thread ∷ [] else []) ++ es) t ≡ reaches x es t
unfolding reaches answers
reaches-joined x true es t = refl
reaches-joined x false es t = refl

pub reaches-one :
    (x : Setup) (d : Datagram) (t : ServerTransaction)
    → x.inet_ntoa x.client.ip ≡ x.ip
    → reaches x (sends d ∷ []) t
      ≡ ServerTransaction.on_receive (received (x.stales 1) d) d.len x.client t
unfolding reaches answers
reaches-one x d t e = if-true _ _ (is_found_wired x e)

crc-lt : (c : List ℕ) → calculate_file_crc32 (some c) < u32_mod
crc-lt c =
    subst (λ n. n < u32_mod) (sym (calculate_file_crc32-eq c)) (calculate_crc32-lt c (length c) 0)

-- The server behind the client's CHK.
abbrev pub told : Setup → ServerTransaction → ClientTransaction → ServerTransaction
told x s u = record s {
  client_address = x.client;
  cur_file_version = word_at 0 (received (x.stales 1) (chk_of (x.opening 0) x.server u)).payload;
  status = chk;
}

-- The server behind DATA.
abbrev pub sends_data : Setup → ServerTransaction → ClientTransaction → ServerTransaction
sends_data x s u = record (prepared x s u) { status = data' }

-- The client behind INFO.
abbrev pub ready_client : Setup → ServerTransaction → ClientTransaction → ClientTransaction
ready_client x s u = informed s x.server (notified s x.server u)

-- The client's effects at NTF.
abbrev pub begun : Setup → ClientTransaction → List Effect
begun x u = join_effects u ++ (starts_thread ∷ sends (chk_of (x.opening 0) x.server u) ∷ [])

-- And at INFO.
abbrev pub agreed : Setup → ServerTransaction → ClientTransaction → List Effect
agreed x s u = sends (rdy_of (x.opening 1) (ready_client x s u)) ∷ []

pub reaches-begun :
    (x : Setup) (s : ServerTransaction) (u : ClientTransaction)
    → x.inet_ntoa x.client.ip ≡ x.ip
    → reaches x (begun x u) (record s { status = ntf }) ≡ told x s u
unfolding reaches answers
reaches-begun x s u known =
    let d = chk_of (x.opening 0) x.server u in
    reaches-joined x u.thread (starts_thread ∷ sends d ∷ []) (record s { status = ntf })
    ∙ reaches-one x d (record s { status = ntf }) known
    ∙ takes-chk (x.stales 1) (x.opening 0).raw (u32_bytes u.cur_file_version) x.server x.client
        (record s { status = ntf }) refl refl

pub reaches-agreed :
    (x : Setup) (s : ServerTransaction) (u : ClientTransaction)
    → x.inet_ntoa x.client.ip ≡ x.ip
    → reaches x (agreed x s u) (record (told x s u) { status = info }) ≡ prepared x s u
unfolding reaches answers
reaches-agreed x s u known =
    let v = ready_client x s u in
    reaches-one x (rdy_of (x.opening 1) v) (record (told x s u) { status = info }) known
    ∙ takes-rdy (x.stales 1) (x.opening 1).raw
        (u32_bytes v.new_file_version
          ++ (u32_bytes v.new_file_size ++ u32_bytes v.inter_packet_gap))
        v.server_address x.client (record (told x s u) { status = info }) refl refl

module _ (x : Setup) (s : ServerTransaction) (c : List ℕ) (u : ClientTransaction) (r : IsFresh s c)
    (f : IsCarried c) (w : IsWired x u) where
  pub opens-begun :
      opens
        (x.opening 0)
        (x.stales 0)
        x.server
        (ServerTransaction.send_message ntf (x.raws 0) s).1
        u
      ≡ (notified s x.server u, begun x u)
  opens-begun = opens-ntf (x.opening 0) (x.stales 0) (x.raws 0) s x.server u w.idle r.version

  pub hears-agreed :
      (x.opening 1).open_ok ≡ true
      → hears
          (x.opening 1)
          (x.stales 0)
          x.server
          (ServerTransaction.send_message info (x.raws 0) (told x s u)).1
          (notified s x.server u)
        ≡ (ready_client x s u, agreed x s u)
  hears-agreed o =
      hears-info (x.opening 1) (x.stales 0) (x.raws 0) (told x s u) x.server (notified s x.server u)
        refl o refl (refl, r.version) (omega (arith, r, f))
        (subst (λ n. n < u32_mod) (sym r.checksum) (crc-lt c))

  -- Behind INFO, over the client's state and what the server has become.
  abbrev behind_info : ServerTransaction → Result → ServerTransaction × ClientTransaction
  behind_info t (v, es) = (reaches x es t, v)

  abbrev behind_chk : ServerTransaction → ClientTransaction → ServerTransaction × ClientTransaction
  behind_chk t v =
      let (t', o) = ServerTransaction.send_message info (x.raws 0) t in
      behind_info t' (hears (x.opening 1) (x.stales 0) x.server o v)

  pub handshake-prepared :
      (x.opening 1).open_ok ≡ true → handshake x s u ≡ (prepared x s u, ready_client x s u)
  unfolding handshake ServerTransaction.send_message
  handshake-prepared o =
      ap (λ (y : Result). behind_chk (reaches x y.1 (record s { status = ntf })) y.0) opens-begun
      ∙ ap (λ t. behind_chk t (notified s x.server u)) (reaches-begun x s u w.known)
      ∙ ap (behind_info (record (told x s u) { status = info })) (hears-agreed o)
      ∙ ap (λ t. (t, ready_client x s u)) (reaches-agreed x s u w.known)

  pub sends_data-IsReady : IsReady (sends_data x s u) c
  sends_data-IsReady = record {
    sending = refl;
    no_request = r.no_request;
    size = r.size;
    count = r.count;
    nonempty = omega (arith, r, f);
    small = r.small;
  }

  pub ready_client-HasReceived : HasReceived c 0 (ready_client x s u)
  ready_client-HasReceived = record {
    state = refl;
    counted = refl;
    expects = omega (arith, r);
    announced = sym r.size;
    checksum = r.checksum;
    open_stream = refl;
    stored = refl;
  }
