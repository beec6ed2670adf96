-- ===== src/Server/Waits.antt =====
-- What the events of a wait do to a transaction, and what makes it DONE.
use trftp.Base.{
  ℕ, ◌≡◌, ◌≢◌, subst, refl, sym, ap, ◌∙◌, arith, Bool, some, List, [], ◌∷◌, ◌++◌, ◌⊎◌, inl, inr,
}
use trftp.Message.{MessageId, done, TrftpMessage}
use trftp.ServerTransaction.{Address, ServerTransaction, send_message, on_receive}
use trftp.ServerTransaction.Receive.{
  Move, keep, checked, ready, finished, cancelled, on_receive-Move, Finishes, on_receive-done_iff,
  on_receive-Untouched,
}
use trftp.Server.{
  Event, receives, cancels, counts, apply, apply_all, Window, events, wait_loop, wait_for_status,
}

-- The same file.
pub record SameFile (t u : ServerTransaction) : Type 0 where
  pub version : u.new_file_version ≡ t.new_file_version
  pub size : u.new_file_size ≡ t.new_file_size
  pub crc : u.new_file_crc32 ≡ t.new_file_crc32
  pub count : u.total_packet_number ≡ t.total_packet_number

-- The events of a wait, in order.
abbrev pub course_of : Window → List Event
course_of w = w.before ++ events w.during

receive-SameFile :
    (m : TrftpMessage) (len : ℕ) (a : Address) (t u : ServerTransaction)
    → SameFile t u
    → SameFile t (on_receive m len a u)
receive-SameFile m len a t u v = ground (arith, on_receive-Untouched m len a u)

pub apply-SameFile : (e : Event) (t u : ServerTransaction) → SameFile t u → SameFile t (apply e u)
unfolding apply send_message
apply-SameFile (receives m len a) t u v = receive-SameFile m len a t u v
apply-SameFile (cancels raw) t u v = ground arith
apply-SameFile (counts psn request) t u v = ground arith

pub apply_all-SameFile :
    (es : List Event) (t u : ServerTransaction) → SameFile t u → SameFile t (apply_all es u)
unfolding apply_all
apply_all-SameFile [] t u v = v
apply_all-SameFile (e ∷ es) t u v = apply_all-SameFile es t (apply e u) (apply-SameFile e t u v)

pub done_cases : (id : MessageId) → (id ≡ done) ⊎ (id ≢ done)
done_cases done = inl refl
done_cases _ = inr (λ e. cc)

-- Only a received message makes a transaction DONE, and from DATA only.
pub move_done :
    (m : TrftpMessage) (len : ℕ) (a : Address) (t : ServerTransaction)
    → t.status ≢ done
    → Move m t (on_receive m len a t)
    → (on_receive m len a t).status ≡ done
    → Finishes m len t
move_done m len a t n (keep e) d = absurd (n (sym e ∙ d))
move_done m len a t n (checked s e h) d = absurd (cc (e, d))
move_done m len a t n (ready s e h) d = absurd (cc (e, d))
move_done m len a t n (cancelled e) d = absurd (cc (e, d))
move_done m len a t n (finished s e p h) d = (on_receive-done_iff m len a t s).0 d

-- Where a course of events makes a transaction DONE.
pub record FirstDone (t : ServerTransaction) (es : List Event) : Type 0 where
  pub earlier : List Event
  pub later : List Event
  pub msg : TrftpMessage
  pub len : ℕ
  pub addr : Address
  pub split : es ≡ earlier ++ (receives msg len addr ∷ later)
  pub accepted : Finishes msg len (apply_all earlier t)

done_at_once :
    (e : Event) (es : List Event) (t : ServerTransaction)
    → t.status ≢ done
    → (apply e t).status ≡ done
    → FirstDone t (e ∷ es)
unfolding apply apply_all send_message
done_at_once (receives m len a) es t n d = record {
  earlier = [];
  later = es;
  msg = m;
  len = len;
  addr = a;
  split = refl;
  accepted = move_done m len a t n (on_receive-Move m len a t) d;
}
done_at_once (cancels raw) es t n d = absurd cc
done_at_once (counts psn request) es t n d = absurd (n d)

pub first_done :
    (es : List Event) (t : ServerTransaction)
    → t.status ≢ done
    → (apply_all es t).status ≡ done
    → FirstDone t es
unfolding apply_all
first_done [] t n d = absurd (n d)
first_done (e ∷ es) t n d = elim (done_cases (apply e t).status) [
  | inl now ↦ done_at_once e es t n now
  | inr not_yet ↦
      let f = first_done es (apply e t) not_yet d in
      record {
        earlier = e ∷ f.earlier;
        later = f.later;
        msg = f.msg;
        len = f.len;
        addr = f.addr;
        split = ap (λ l. e ∷ l) f.split;
        accepted = f.accepted;
      }
]

apply_all-append :
    (es fs : List Event) (t : ServerTransaction)
    → apply_all (es ++ fs) t ≡ apply_all fs (apply_all es t)
unfolding apply_all
apply_all-append [] fs t = refl
apply_all-append (e ∷ es) fs t = apply_all-append es fs (apply e t)

-- However the waiting thread wakes up, all events of its wait come before it returns.
wait_loop-state :
    (old : MessageId) (es : List (Event × Bool)) (t : ServerTransaction)
    → (wait_loop old es t).1 ≡ apply_all (events es) t
unfolding wait_loop apply_all
wait_loop-state old [] t = refl
wait_loop-state old ((e, wakes) ∷ es) t = ground (arith, wait_loop-state old es (apply e t))

pub wait-state :
    (w : Window) (t : ServerTransaction) → (wait_for_status w t).1 ≡ apply_all (course_of w) t
unfolding wait_for_status
wait-state w t =
    wait_loop-state _ w.during (apply_all w.before t)
    ∙ sym (apply_all-append w.before (events w.during) t)

pub wait-SameFile :
    (w : Window) (t u : ServerTransaction) → SameFile t u → SameFile t (wait_for_status w u).1
wait-SameFile w t u v =
    subst (SameFile t) (sym (wait-state w u)) (apply_all-SameFile (course_of w) t u v)

-- A status that a wait returns is the transaction's.
pub wait_status :
    (w : Window) (t : ServerTransaction) (id : MessageId)
    → (wait_for_status w t).0 ≡ some id
    → (wait_for_status w t).1.status ≡ id
unfolding wait_for_status
wait_status w t id h = ground arith
