-- ===== src/Log/Streams/Mutexes.antt =====
-- The mutexes of files and of streams.
use Prim.Native.String.{String}
use package.text.Mathlib.TextEquality.{eq_iff}
use trftp.Base.{
  ℕ, suc, ◌<◌, ◌≡◌, ◌↔◌, refl, arith, Bool, true, subst, Option, none, some, List, [], ◌∷◌,
}
use trftp.Log.Streams.{
  Stream, cout, cerr, other_stream, Mutex, file_mutex, get_console_mutex, FileMutexes, lookup,
  make_or, get_file_mutex, console, file, ThreadStream, stream, over_console, new_console, new_file,
  request_all, no_files,
}

-- Each path of the map has a number of its own, below the count.
Numbered : List (String × ℕ) → ℕ → Type 0
Numbered m k =
    (p q : String) (a b : ℕ)
    → lookup p m ≡ some a
    → lookup q m ≡ some b
    → (a < k) × ((a ≡ b) → p ≡ q)

lookup_first : (p : String) (n : ℕ) (m : List (String × ℕ)) → lookup p ((p, n) ∷ m) ≡ some n
unfolding lookup
lookup_first p n m = ground (arith, eq_iff p p)

Numbered-cons :
    (path : String) (m : List (String × ℕ)) (k : ℕ)
    → lookup path m ≡ none
    → Numbered m k
    → Numbered ((path, k) ∷ m) (suc k)
unfolding Numbered lookup
Numbered-cons path m k h v p q a b e f =
    ground (arith, eq_iff p path, eq_iff q path, v p p a a, v q q b b, v p q a b)

make_or-Numbered :
    (path : String) (s : FileMutexes) (o : Option ℕ)
    → lookup path s.file_mutexes ≡ o
    → Numbered s.file_mutexes s.made
    → Numbered (make_or path s o).0.file_mutexes (make_or path s o).0.made
unfolding make_or
make_or-Numbered path s none h v = Numbered-cons path s.file_mutexes s.made h v
make_or-Numbered path s (some n) h v = v

make_or-keeps :
    (path p : String) (s : FileMutexes) (o : Option ℕ) (a : ℕ)
    → lookup path s.file_mutexes ≡ o
    → lookup p s.file_mutexes ≡ some a
    → lookup p (make_or path s o).0.file_mutexes ≡ some a
unfolding make_or lookup
make_or-keeps path p s (some n) a h e = e
make_or-keeps path p s none a h e = ground (arith, eq_iff p path)

-- A mutex that the map holds under a path.
pub record Held (path : String) (s : FileMutexes) (m : Mutex) : Type 0 where
  pub number : ℕ
  pub is_file : m ≡ file_mutex number
  pub found : lookup path s.file_mutexes ≡ some number

make_or-Held :
    (path : String) (s : FileMutexes) (o : Option ℕ)
    → lookup path s.file_mutexes ≡ o
    → Held path (make_or path s o).0 (make_or path s o).1
unfolding make_or
make_or-Held path s none h = record {
  number = s.made;
  is_file = refl;
  found = lookup_first path s.made s.file_mutexes;
}
make_or-Held path s (some n) h = record { number = n; is_file = refl; found = h }

request_all-Numbered :
    (ps : List String) (s : FileMutexes)
    → Numbered s.file_mutexes s.made
    → Numbered (request_all ps s).file_mutexes (request_all ps s).made
unfolding request_all get_file_mutex
request_all-Numbered [] s v = v
request_all-Numbered (p ∷ ps) s v =
    request_all-Numbered ps (get_file_mutex p s).0
      (make_or-Numbered p s (lookup p s.file_mutexes) refl v)

request_all-keeps :
    (ps : List String) (p : String) (s : FileMutexes) (a : ℕ)
    → lookup p s.file_mutexes ≡ some a
    → lookup p (request_all ps s).file_mutexes ≡ some a
unfolding request_all get_file_mutex
request_all-keeps [] p s a e = e
request_all-keeps (q ∷ qs) p s a e =
    request_all-keeps qs p (get_file_mutex q s).0 a
      (make_or-keeps q p s (lookup q s.file_mutexes) a refl e)

Numbered-nil : Numbered [] 0
unfolding Numbered lookup
Numbered-nil p q a b e f = absurd cc

-- Two requests of `GetFileMutex`, whatever requests were made before and between them, give the
-- same mutex exactly if they name the same path.
get_file_mutex_unique :
    (before between : List String) (p q : String)
    → let (s, m) = get_file_mutex p (request_all before no_files) in
      let (s', m') = get_file_mutex q (request_all between s) in (m ≡ m') ↔ (p ≡ q)
unfolding no_files get_file_mutex Numbered
get_file_mutex_unique before between p q =
    let u = request_all before no_files in
    let h = make_or-Held p u (lookup p u.file_mutexes) refl in
    let s = (get_file_mutex p u).0 in
    let w = request_all between s in
    let o = lookup q w.file_mutexes in
    let h' = make_or-Held q w o refl in
    let v = request_all-Numbered before no_files Numbered-nil in
    let v' = request_all-Numbered between s (make_or-Numbered p u _ refl v) in
    let v'' = make_or-Numbered q w o refl v' in
    let kept =
      make_or-keeps q p w o h.number refl (request_all-keeps between p s h.number h.found) in
    let one = v'' p q h.number h'.number kept h'.found in
    (λ e. one.1 (cc (e, h.is_file, h'.is_file)), λ e. cc (e, kept, h'.found, h.is_file, h'.is_file))

get_file_mutex-Held :
    (path : String) (s : FileMutexes)
    → Held path (get_file_mutex path s).0 (get_file_mutex path s).1
unfolding get_file_mutex
get_file_mutex-Held path s = make_or-Held path s (lookup path s.file_mutexes) refl

-- A mutex that has been made stays.
pub get_file_mutex-keeps :
    (path p : String) (s : FileMutexes) (m : Mutex)
    → Held p s m
    → Held p (get_file_mutex path s).0 m
unfolding get_file_mutex
get_file_mutex-keeps path p s m h = record {
  number = h.number;
  is_file = h.is_file;
  found = make_or-keeps path p s (lookup path s.file_mutexes) h.number refl h.found;
}

pub Held_unique : (p : String) (s : FileMutexes) (m m' : Mutex) → Held p s m → Held p s m' → m ≡ m'
Held_unique p s m m' h h' = cc (h.is_file, h'.is_file, h.found, h'.found)

-- A stream that could be made.
pub record IsFor (path : String) (s : FileMutexes) (t : ThreadStream) : Type 0 where
  pub target : t.os ≡ file path
  pub held : Held path s t.os_mutex

pub new_file-files :
    (path : String) (opens : Bool) (s : FileMutexes)
    → (new_file path opens s).0 ≡ (get_file_mutex path s).0
unfolding new_file
new_file-files path opens s = refl

pub new_file-IsFor :
    (path : String) (s : FileMutexes) (t : ThreadStream)
    → (new_file path true s).1 ≡ stream t
    → IsFor path (get_file_mutex path s).0 t
unfolding new_file
new_file-IsFor path s t e =
    let f : record { os = file path; os_mutex = (get_file_mutex path s).1; buffer = [] } ≡ t =
      cc e in
    subst (IsFor path (get_file_mutex path s).0) f
      (record { target = refl; held = get_file_mutex-Held path s })

pub new_console-target :
    (os : Stream) (t : ThreadStream)
    → new_console os ≡ stream t
    → (t.os ≡ console os) × (get_console_mutex os ≡ some t.os_mutex)
unfolding new_console over_console get_console_mutex
new_console-target cout t e = (cc e, cc e)
new_console-target cerr t e = (cc e, cc e)
new_console-target (other_stream n) t e = absurd (cc e)
