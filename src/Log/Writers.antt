-- ===== src/Log/Writers.antt =====
-- Log streams of several threads: each is made, collects text, and writes it out in its destructor
-- under its mutex, piece by piece. Their steps interleave freely.
pub mod Guarded
pub mod Moves
pub mod Whole
use Prim.Native.String.{String}
use package.text.Mathlib.Text.{◌==◌}
use trftp.Base.{
  ℕ, ◌≡◌, ◌≢◌, Bool, true, false, Option, none, some, List, [], ◌∷◌, ◌++◌, if◌then◌else◌, put,
}
use trftp.Log.Streams.{
  Stream, cout, cerr, other_stream, Mutex, FileMutexes, no_files, Target, console, file,
  ThreadStream, Made, stream, new_console, new_file, insert,
}

-- A thread with no stream, with one that collects, or within its destructor: the pieces written, and
-- those that are left.
pub data Writer : Type 0 where
  idle : Writer
  collecting : ThreadStream → Writer
  writing : ThreadStream → List String → List String → Writer

-- `finished` are the texts of the destructors that have ended.
pub record System : Type 0 where
  pub files : FileMutexes
  pub writers : ℕ → Writer
  pub output : List (Target × String)
  pub finished : List (Target × List String)

-- No destructor holds the mutex.
abbrev pub IsFree : System → Mutex → Type 0
IsFree s m =
    (j : ℕ) (t : ThreadStream) (d l : List String) → s.writers j ≡ writing t d l → t.os_mutex ≢ m

pub data Step : System → System → Type 0 where
  opens_console :
      (s : System) (k : ℕ) (os : Stream) (t : ThreadStream)
      → s.writers k ≡ idle
      → new_console os ≡ stream t
      → Step s (record s { writers = put k (collecting t) s.writers })
  opens_file :
      (s : System) (k : ℕ) (path : String) (t : ThreadStream)
      → s.writers k ≡ idle
      → (new_file path true s.files).1 ≡ stream t
      → Step s (record s {
        files = (new_file path true s.files).0;
        writers = put k (collecting t) s.writers;
      })
  -- The file cannot be opened: its mutex has been made.
  fails_to_open :
      (s : System) (path : String) → Step s (record s { files = (new_file path false s.files).0 })
  inserts :
      (s : System) (k : ℕ) (t : ThreadStream) (text : String)
      → s.writers k ≡ collecting t
      → Step s (record s { writers = put k (collecting (insert text t)) s.writers })
  locks :
      (s : System) (k : ℕ) (t : ThreadStream)
      → s.writers k ≡ collecting t
      → IsFree s t.os_mutex
      → Step s (record s { writers = put k (writing t [] t.buffer) s.writers })
  writes :
      (s : System) (k : ℕ) (t : ThreadStream) (text : String) (d l : List String)
      → s.writers k ≡ writing t d (text ∷ l)
      → Step s (record s {
        writers = put k (writing t (d ++ (text ∷ [])) l) s.writers;
        output = s.output ++ ((t.os, text) ∷ []);
      })
  unlocks :
      (s : System) (k : ℕ) (t : ThreadStream) (d : List String)
      → s.writers k ≡ writing t d []
      → Step s (record s {
        writers = put k idle s.writers;
        finished = s.finished ++ ((t.os, t.buffer) ∷ []);
      })

pub data Reach (s : System) : System → Type 0 where
  here : Reach s s
  next : {u v : System} → Reach s u → Step u v → Reach s v

-- A process that has not logged anything.
abbrev pub silent : System
silent = record { files = no_files; writers = λ k. idle; output = []; finished = [] }
