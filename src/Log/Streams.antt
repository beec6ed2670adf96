-- ===== src/Log/Streams.antt =====
-- src/thread_safe_log.cpp and include/trftp/thread_safe_log.h: a log stream collects what is put
-- in, and its destructor writes it out under the mutex of its target.
pub mod Mutexes
use Prim.Native.String.{String}
use package.text.Mathlib.Text.{◌==◌}
use package.text.Mathlib.TextEquality.{eq_iff}
use trftp.Base.{
  ℕ, suc, ◌<◌, ◌≡◌, ◌↔◌, refl, arith, Bool, true, subst, Option, none, some, List, [], ◌∷◌, ◌++◌,
  if◌then◌else◌,
}

-- The object that a reference to a `std::ostream` refers to.
pub data Stream : Type 0 where
  cout cerr : Stream
  other_stream : ℕ → Stream

-- A mutex object, by the variable that holds it; those of files by the order of their making.
pub data Mutex : Type 0 where
  cout_mutex cerr_mutex : Mutex
  file_mutex : ℕ → Mutex

-- `GetConsoleMutex(os)`; `none` is the exception for an unknown stream.
unfoldable pub get_console_mutex : Stream → Option Mutex
get_console_mutex cout = some cout_mutex
get_console_mutex cerr = some cerr_mutex
get_console_mutex (other_stream n) = none

-- The static map of `GetFileMutex`, and how many mutexes it has made.
pub record FileMutexes : Type 0 where
  pub file_mutexes : List (String × ℕ)
  pub made : ℕ

pub lookup : String → List (String × ℕ) → Option ℕ
lookup path [] = none
lookup path ((p, n) ∷ rest) = let found = lookup path rest in if path == p then some n else found

make_or : String → FileMutexes → Option ℕ → FileMutexes × Mutex
make_or path s none = (
  record { file_mutexes = (path, s.made) ∷ s.file_mutexes; made = suc s.made },
  file_mutex s.made,
)
make_or path s (some n) = (s, file_mutex n)

-- `GetFileMutex(file_path)`; the static mutex around it makes the call one step.
pub get_file_mutex : String → FileMutexes → FileMutexes × Mutex
unfolding make_or
get_file_mutex path s = make_or path s (lookup path s.file_mutexes)

-- Where a stream's text goes.
pub data Target : Type 0 where
  console : Stream → Target
  file : String → Target

-- A `ThreadStream`; `owns_file` is told by the target.
pub record ThreadStream : Type 0 where
  pub os : Target
  pub os_mutex : Mutex
  pub buffer : List String

pub data Failure : Type 0 where
  unknown_stream open_failed : Failure

pub data Made : Type 0 where
  throws : Failure → Made
  stream : ThreadStream → Made

over_console : Stream → Option Mutex → Made
over_console os none = throws unknown_stream
over_console os (some m) = stream (record { os = console os; os_mutex = m; buffer = [] })

-- `ThreadStream(os)`.
unfoldable pub new_console : Stream → Made
unfolding over_console
new_console os = over_console os (get_console_mutex os)

-- `ThreadStream(file_path)`, with whether the file can be opened. The mutex is made before that.
pub new_file : String → Bool → FileMutexes → FileMutexes × Made
new_file path opens s =
    let (s', m) = get_file_mutex path s in
    (
      s',
      if opens
          then stream (record { os = file path; os_mutex = m; buffer = [] })
          else throws open_failed,
    )

-- `<<`.
unfoldable pub insert : String → ThreadStream → ThreadStream
insert text t = record t { buffer = t.buffer ++ (text ∷ []) }

abbrev at_target : Target → List String → List (Target × String)
at_target os [] = []
at_target os (text ∷ texts) = (os, text) ∷ at_target os texts

-- The requests that have been made of `GetFileMutex`, in order.
pub request_all : List String → FileMutexes → FileMutexes
request_all [] s = s
request_all (p ∷ ps) s = request_all ps (get_file_mutex p s).0

pub no_files : FileMutexes
no_files = record { file_mutexes = []; made = 0 }

-- `~ThreadStream()`: what it adds to what has been written, under its mutex. A file is closed with
-- it.
unfoldable pub destroy : ThreadStream → List (Target × String) → List (Target × String)
destroy t written = written ++ at_target t.os t.buffer
