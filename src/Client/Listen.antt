-- ===== src/Client/Listen.antt =====
-- The listening thread of the client, `Client::HandleIncomingMessages`, over its socket.
use trftp.Base.{
  ◌≡◌, refl, sym, ap, ◌∙◌, arith, Bool, true, false, Option, none, some, List, [], ◌∷◌, ◌++◌,
  if◌then◌else◌, length, take, if-true,
}
use trftp.Message.{TrftpMessage}
use trftp.ClientTransaction.{Env, Effect, Received, timeout, datagram}
use trftp.UdpSocket.{
  eagain, ewouldblock, eintr, other, SocketError, Outcome, throws, returns, Recv, failed, got,
  receive, stored, message_size,
}
use trftp.UdpSocket.Rounds.{Round, fatal, first, failure}
use trftp.Client.{Client, listen_round, listen}

-- A client, what it has done, and the exception that ends the process.
abbrev pub Ended : Type 0
Ended = Client × List Effect × Option SocketError

-- The effects of a round, and those of what follows it.
abbrev pub behind : List Effect → Ended → Ended
behind es (c, fs, e) = (c, es ++ fs, e)

-- One round, from the result of `Receive` on, and what follows it.
listen_on : Env → (Client → Ended) → Outcome Received → Client → Ended
listen_on env next (throws e) c = (c, [], some e)
listen_on env next (returns r) c = let (c', es) = listen_round env r c in behind es (next c')

-- `HandleIncomingMessages` over its rounds.
pub listen_socket : List (Env × Round) → Client → Ended
unfolding listen_on
listen_socket [] c = (c, [], none)
listen_socket ((env, r) ∷ rs) c =
    let rest = listen_on env (listen_socket rs) (receive r.raw r.answer) c in
    if r.running then rest else (c, [], none)

-- What one answer of the kernel brings.
mail : Env → TrftpMessage → Recv → List (Env × Received)
mail env raw (failed e) = []
mail env raw (got [] addr) = []
mail env raw (got (b ∷ bs) addr) =
    let bytes = take message_size (b ∷ bs) in
    (env, datagram (stored raw bytes) (length bytes) addr) ∷ []

abbrev unless : Option SocketError → List (Env × Received) → List (Env × Received)
unless (some e) ms = []
unless none ms = ms

-- The datagrams, in order, up to the first fatal answer and while the client is running.
pub heard : List (Env × Round) → List (Env × Received)
unfolding mail
heard [] = []
heard ((env, r) ∷ rs) =
    let rest = heard rs in
    if r.running then unless (fatal r.answer) (mail env r.raw r.answer ++ rest) else []

abbrev pub rounds : List (Env × Round) → List Round
rounds [] = []
rounds ((env, r) ∷ rs) = r ∷ rounds rs

-- A run of the listener over messages, and how it ends.
abbrev pub hearing : List (Env × Received) → Option SocketError → Client → Ended
hearing ms e c = let (c', es) = listen ms c in (c', es, e)

listen_round-is_running :
    (env : Env) (r : Received) (c : Client) → (listen_round env r c).0.is_running ≡ c.is_running
unfolding listen_round
listen_round-is_running env timeout c = refl
listen_round-is_running env (datagram m len addr) c = ground arith

listen_on-hearing :
    (env : Env) (next : Client → Ended) (ms : List (Env × Received)) (e : Option SocketError)
    (raw : TrftpMessage) (answer : Recv) (c : Client)
    → c.is_running ≡ true
    → ((c' : Client) → c'.is_running ≡ true → next c' ≡ hearing ms e c')
    → listen_on env next (receive raw answer) c
      ≡ hearing (unless (fatal answer) (mail env raw answer ++ ms)) (first (fatal answer) e) c
unfolding listen_on receive fatal mail listen
listen_on-hearing env next ms e raw (failed eagain) c h ih = unfold listen_round in ih c h
listen_on-hearing env next ms e raw (failed ewouldblock) c h ih = unfold listen_round in ih c h
listen_on-hearing env next ms e raw (failed eintr) c h ih = unfold listen_round in ih c h
listen_on-hearing env next ms e raw (failed (other n)) c h ih = refl
listen_on-hearing env next ms e raw (got [] addr) c h ih = refl
listen_on-hearing env next ms e raw (got (b ∷ bs) addr) c h ih =
    let bytes = take message_size (b ∷ bs) in
    let r = datagram (stored raw bytes) (length bytes) addr in
    let (c', es) = listen_round env r c in
    ap (behind es) (ih c' (listen_round-is_running env r c ∙ h))
    ∙ sym (ap (λ (u : Client × List Effect). (u.0, u.1, e)) (if-true _ _ h))

stop_or :
    (b : Bool) (ms : List (Env × Received)) (e : Option SocketError) (c : Client) (w : Ended)
    → w ≡ hearing ms e c
    → (if b then w else (c, [], none)) ≡ hearing (if b then ms else []) (if b then e else none) c
unfolding listen
stop_or true ms e c w h = h
stop_or false ms e c w h = refl

-- The listening thread of a client that is running does with what its socket receives exactly what
-- the listener does with the datagrams, in order, up to the first fatal answer of the socket and
-- while `is_running_` stays set; waits that end without a datagram change nothing. It ends with the
-- exception of `Receive` if there is such an answer.
listen_socket-hearing :
    (rs : List (Env × Round)) (c : Client)
    → c.is_running ≡ true
    → listen_socket rs c ≡ hearing (heard rs) (failure (rounds rs)) c
unfolding listen_socket heard failure listen
listen_socket-hearing [] c h = refl
listen_socket-hearing ((env, r) ∷ rs) c h =
    stop_or r.running _ _ c _
      (listen_on-hearing env (listen_socket rs) _ _ r.raw r.answer c h (listen_socket-hearing rs))
