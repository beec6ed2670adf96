-- ===== src/Server/Listen.antt =====
-- The listening thread of the server, `Server::HandleIncomingMessages`.
use trftp.Base.{
  ℕ, ◌≡◌, refl, sym, ap, ◌∙◌, Bool, true, false, Option, none, some, List, [], ◌∷◌, ◌++◌,
  if◌then◌else◌, length, take,
}
use trftp.Message.{TrftpMessage}
use trftp.ServerTransaction.{Address, ServerTransaction, on_receive}
use trftp.ClientTransaction.{Received, timeout, datagram}
use trftp.UdpSocket.{
  eagain, ewouldblock, eintr, other, SocketError, Outcome, throws, returns, Recv, failed, got,
  receive, stored, message_size,
}
use trftp.UdpSocket.Rounds.{Round, fatal, first, failure}
use trftp.Server.{Text, same_text, Table, find, route, Event, receives, apply, apply_all}
use trftp.Server.Table.{changed, route-find}

-- One round, from the result of `Receive` on, and what follows it.
serve_round :
    (ℕ → Text)
    → (Table → Table × Option SocketError)
    → Outcome Received
    → Table
    → Table × Option SocketError
serve_round inet_ntoa next (throws e) active = (active, some e)
serve_round inet_ntoa next (returns timeout) active = next active
serve_round inet_ntoa next (returns (datagram msg len addr)) active =
    next (route inet_ntoa msg len addr active)

-- `HandleIncomingMessages` over its rounds: the table, and the exception that ends the process.
pub serve : (ℕ → Text) → List Round → Table → Table × Option SocketError
unfolding serve_round
serve inet_ntoa [] active = (active, none)
serve inet_ntoa (r ∷ rs) active =
    let rest = serve_round inet_ntoa (serve inet_ntoa rs) (receive r.raw r.answer) active in
    if r.running then rest else (active, none)

-- What one answer of the kernel brings for a client.
mail : (ℕ → Text) → Text → TrftpMessage → Recv → List Event
mail inet_ntoa key raw (failed e) = []
mail inet_ntoa key raw (got [] addr) = []
mail inet_ntoa key raw (got (b ∷ bs) addr) =
    let bytes = take message_size (b ∷ bs) in
    if same_text key (inet_ntoa addr.ip)
    then receives (stored raw bytes) (length bytes) addr ∷ []
    else []

abbrev unless : Option SocketError → List Event → List Event
unless (some e) es = []
unless none es = es

-- The datagrams from a client's address, in order, up to the first fatal answer and while the
-- server is running.
pub inbox : (ℕ → Text) → Text → List Round → List Event
unfolding mail
inbox inet_ntoa key [] = []
inbox inet_ntoa key (r ∷ rs) =
    let rest = inbox inet_ntoa key rs in
    if r.running then unless (fatal r.answer) (mail inet_ntoa key r.raw r.answer ++ rest) else []

-- What events do to the entry of a client, if there is one.
abbrev pub after : List Event → Option ServerTransaction → Option ServerTransaction
after es none = none
after es (some t) = some (apply_all es t)

after_nil : (o : Option ServerTransaction) → after [] o ≡ o
unfolding apply_all
after_nil none = refl
after_nil (some t) = refl

after-changed :
    (hit : Bool) (m : TrftpMessage) (len : ℕ) (addr : Address) (rest : List Event)
    (o : Option ServerTransaction)
    → after rest (changed hit (on_receive m len addr) o)
      ≡ after ((if hit then receives m len addr ∷ [] else []) ++ rest) o
unfolding apply_all apply
after-changed false m len addr rest none = refl
after-changed false m len addr rest (some t) = refl
after-changed true m len addr rest none = refl
after-changed true m len addr rest (some t) = refl

module _ (inet_ntoa : ℕ → Text) (key : Text) where
  -- What a run of the listener from a table leaves under the key, and how it ends.
  abbrev pub Serves : List Event → Option SocketError → Table → Table × Option SocketError → Type 0
  Serves es e active w = (find key w.0 ≡ after es (find key active)) × (w.1 ≡ e)

  serve_round-Serves :
      (next : Table → Table × Option SocketError) (es : List Event) (e : Option SocketError)
      (raw : TrftpMessage) (answer : Recv) (active : Table)
      → ((active' : Table) → Serves es e active' (next active'))
      → Serves
          (unless (fatal answer) (mail inet_ntoa key raw answer ++ es))
          (first (fatal answer) e)
          active
          (serve_round inet_ntoa next (receive raw answer) active)
  unfolding serve_round receive fatal mail
  serve_round-Serves next es e raw (failed eagain) active ih = ih active
  serve_round-Serves next es e raw (failed ewouldblock) active ih = ih active
  serve_round-Serves next es e raw (failed eintr) active ih = ih active
  serve_round-Serves next es e raw (failed (other n)) active ih = (sym (after_nil _), refl)
  serve_round-Serves next es e raw (got [] addr) active ih = (sym (after_nil _), refl)
  serve_round-Serves next es e raw (got (b ∷ bs) addr) active ih =
      let bytes = take message_size (b ∷ bs) in
      let m = stored raw bytes in
      let n = length bytes in
      let next_is = ih (route inet_ntoa m n addr active) in
      (
        next_is.0
            ∙ ap (after es) (route-find inet_ntoa m n addr key active)
            ∙ after-changed (same_text key (inet_ntoa addr.ip)) m n addr es (find key active),
        next_is.1,
      )

  stop_or :
      (b : Bool) (es : List Event) (e : Option SocketError) (active : Table)
      (w : Table × Option SocketError)
      → Serves es e active w
      → Serves
          (if b then es else [])
          (if b then e else none)
          active
          (if b then w else (active, none))
  stop_or true es e active w h = h
  stop_or false es e active w h = (sym (after_nil _), refl)

  -- The server's listening thread, whatever its rounds receive: afterwards the transaction filed
  -- under a client's key is the old one after the datagrams from that client's address, in order,
  -- up to the first fatal answer of the socket and while the server is running, and no others. The
  -- thread ends with an exception exactly if there is such an answer.
  pub serve-Serves :
      (rs : List Round) (active : Table)
      → Serves (inbox inet_ntoa key rs) (failure rs) active (serve inet_ntoa rs active)
  unfolding serve inbox failure
  serve-Serves [] active = (sym (after_nil _), refl)
  serve-Serves (r ∷ rs) active =
      stop_or r.running _ _ active _
        (serve_round-Serves (serve inet_ntoa rs) _ _ r.raw r.answer active (serve-Serves rs))
