-- ===== src/Log/Writers/Whole.antt =====
-- The texts of the destructors stand in each target whole and one behind the other.
use Prim.Native.String.{String}
use trftp.Base.{ℕ, ◌≡◌, ◌≢◌, sym, ◌∙◌, Bool, true, false, List, subst}
use trftp.Log.Targets.{nothing_written, text_of, texts_of}
use trftp.Log.Streams.{FileMutexes, Target, ThreadStream, stream, new_file, insert}
use trftp.Log.Streams.Mutexes.{new_file-files, new_file-IsFor, new_console-target}
use trftp.Log.Writers.{
  Writer, idle, collecting, writing, System, Step, opens_console, opens_file, fails_to_open,
  inserts, locks, writes, unlocks, Reach, here, next, silent,
}
use trftp.Log.Writers.Guarded.{
  Has, collects, IsGuarded, by_console, by_file, Guards, collecting-Guards, kept, IsWhole,
}
use trftp.Log.Writers.Moves.{
  IsQuiet, quiet-IsWhole, locks-IsWhole, writes-IsWhole, unlocks-IsWhole, no_stream,
}

made_file-Guards :
    (path : String) (opens : Bool) (s : System)
    → IsWhole s
    → (j : ℕ) → Guards (new_file path opens s.files).0 (s.writers j)
made_file-Guards path opens s v j t h =
    subst (λ fs. IsGuarded fs t) (sym (new_file-files path opens s.files))
      (kept path t (v.guarded j t h))

opens_file-Guards :
    (s : System) (path : String) (t : ThreadStream)
    → (new_file path true s.files).1 ≡ stream t
    → Guards (new_file path true s.files).0 (collecting t)
opens_file-Guards s path t e =
    let f = new_file-IsFor path s.files t e in
    subst (λ fs. Guards fs (collecting t)) (sym (new_file-files path true s.files))
      (collecting-Guards t (by_file path f.target f.held))

not_writing : {w w' : Writer} → w ≡ w' → IsQuiet w' → IsQuiet w
not_writing e h t d l f = h t d l (sym e ∙ f)

idle-IsQuiet : IsQuiet idle
idle-IsQuiet t d l e = cc e

collecting-IsQuiet : (t : ThreadStream) → IsQuiet (collecting t)
collecting-IsQuiet t u d l e = cc e

inserts-IsGuarded :
    {fs : FileMutexes} (text : String) (t : ThreadStream)
    → IsGuarded fs t
    → IsGuarded fs (insert text t)
unfolding insert
inserts-IsGuarded text t (by_console os e m) = by_console os e m
inserts-IsGuarded text t (by_file p e h) = by_file p e h

Step-IsWhole : {s u : System} → Step s u → IsWhole s → IsWhole u
Step-IsWhole (opens_console s k os t e f) v =
    let (target, mutex) = new_console-target os t f in
    quiet-IsWhole s s.files k (collecting t) (not_writing e idle-IsQuiet) (collecting-IsQuiet t)
      (collecting-Guards t (by_console os target mutex)) v.guarded v
Step-IsWhole (opens_file s k path t e f) v =
    quiet-IsWhole s _ k (collecting t) (not_writing e idle-IsQuiet) (collecting-IsQuiet t)
      (opens_file-Guards s path t f) (made_file-Guards path true s v) v
Step-IsWhole (fails_to_open s path) v = record {
  guarded = made_file-Guards path false s v;
  split = v.split;
  alone = v.alone;
  resting = v.resting;
  partial = v.partial;
}
Step-IsWhole (inserts s k t text e) v =
    let g = inserts-IsGuarded text t (v.guarded k t (subst (Has t) (sym e) collects)) in
    quiet-IsWhole s s.files k (collecting (insert text t)) (not_writing e (collecting-IsQuiet t))
      (collecting-IsQuiet (insert text t)) (collecting-Guards (insert text t) g) v.guarded v
Step-IsWhole (locks s k t e free) v = locks-IsWhole s k t e free v
Step-IsWhole (writes s k t text d l e) v = writes-IsWhole s k t text d l e v
Step-IsWhole (unlocks s k t d e) v = unlocks-IsWhole s k t d e v

silent-IsWhole : IsWhole silent
silent-IsWhole = record {
  guarded = λ k t h. absurd (no_stream h);
  split = λ k t d l e. absurd (cc e);
  alone = λ k k' t t' d l d' l' e e' m. absurd (cc e);
  resting = λ os h. nothing_written os;
  partial = λ k t d l e. absurd (cc e);
}

Reach-IsWhole : {s u : System} → IsWhole s → Reach s u → IsWhole u
Reach-IsWhole v here = v
Reach-IsWhole v (next r st) = Step-IsWhole st (Reach-IsWhole v r)

-- In every state that a process reaches, however its threads make log streams, put text into them
-- and destroy them, and however their steps interleave: a console or a file to which no destructor
-- is writing holds the texts of the destructors that have ended there, each whole, one behind the
-- other, and nothing else.
pub Reach-whole :
    {u : System} (os : Target)
    → Reach silent u
    → ((k : ℕ) (t : ThreadStream) (d l : List String) → u.writers k ≡ writing t d l → os ≢ t.os)
    → text_of os u.output ≡ texts_of os u.finished
Reach-whole os r h = (Reach-IsWhole silent-IsWhole r).resting os h
