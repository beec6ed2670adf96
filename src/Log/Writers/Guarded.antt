-- ===== src/Log/Writers/Guarded.antt =====
-- What holds of the streams that threads have, and of what they have written.
use Prim.Native.String.{String}
use trftp.Base.{ℕ, ◌≡◌, ◌≢◌, sym, some, List, ◌++◌, subst}
use trftp.Log.Targets.{text_of, texts_of}
use trftp.Log.Streams.{
  Stream, FileMutexes, Target, console, file, ThreadStream, get_console_mutex, get_file_mutex,
}
use trftp.Log.Streams.Mutexes.{Held, Held_unique, get_file_mutex-keeps}
use trftp.Log.Writers.{Writer, collecting, writing, System}

-- The stream that a writer has.
pub data Has (t : ThreadStream) : Writer → Type 0 where
  collects : Has t (collecting t)
  writes_out : (d l : List String) → Has t (writing t d l)

-- A stream has the mutex of its target.
pub data IsGuarded (fs : FileMutexes) (t : ThreadStream) : Type 0 where
  by_console :
      (os : Stream) → t.os ≡ console os → get_console_mutex os ≡ some t.os_mutex → IsGuarded fs t
  by_file : (path : String) → t.os ≡ file path → Held path fs t.os_mutex → IsGuarded fs t

pub guarded_same :
    (fs : FileMutexes) (t u : ThreadStream)
    → IsGuarded fs t
    → IsGuarded fs u
    → t.os ≡ u.os
    → t.os_mutex ≡ u.os_mutex
guarded_same fs t u (by_console a e m) (by_console b f m') q =
    let h : a ≡ b = cc (e, f, q) in cc (h, m, m')
guarded_same fs t u (by_file p e m) (by_file p' f m') q =
    let h : p' ≡ p = cc (e, f, q) in
    Held_unique p fs t.os_mutex u.os_mutex m (subst (λ x. Held x fs u.os_mutex) h m')
guarded_same fs t u (by_console a e m) (by_file p' f m') q = absurd (cc (e, f, q))
guarded_same fs t u (by_file p e m) (by_console b f m') q = absurd (cc (e, f, q))

abbrev pub Guards : FileMutexes → Writer → Type 0
Guards fs w = (t : ThreadStream) → Has t w → IsGuarded fs t

pub writing-Guards :
    {fs : FileMutexes} (t : ThreadStream) (d l : List String)
    → IsGuarded fs t
    → Guards fs (writing t d l)
writing-Guards t d l g u (writes_out a b) = g

pub collecting-Guards :
    {fs : FileMutexes} (t : ThreadStream) → IsGuarded fs t → Guards fs (collecting t)
collecting-Guards t g u collects = g

pub kept :
    {fs : FileMutexes} (path : String) (t : ThreadStream)
    → IsGuarded fs t
    → IsGuarded (get_file_mutex path fs).0 t
kept path t (by_console os e m) = by_console os e m
kept {fs} path t (by_file p e h) = by_file p e (get_file_mutex-keeps path p fs t.os_mutex h)

pub record IsWhole (s : System) : Type 0 where
  pub guarded : (k : ℕ) → Guards s.files (s.writers k)
  -- What is written and what is left are the stream's text.
  pub split :
      (k : ℕ) (t : ThreadStream) (d l : List String)
      → s.writers k ≡ writing t d l
      → t.buffer ≡ d ++ l
  pub alone :
      (k k' : ℕ) (t t' : ThreadStream) (d l d' l' : List String)
      → s.writers k ≡ writing t d l
      → s.writers k' ≡ writing t' d' l'
      → t.os_mutex ≡ t'.os_mutex
      → k ≡ k'
  pub resting :
      (os : Target)
      → ((k : ℕ) (t : ThreadStream) (d l : List String) → s.writers k ≡ writing t d l → os ≢ t.os)
      → text_of os s.output ≡ texts_of os s.finished
  pub partial :
      (k : ℕ) (t : ThreadStream) (d l : List String)
      → s.writers k ≡ writing t d l
      → text_of t.os s.output ≡ texts_of t.os s.finished ++ d

pub writing-IsGuarded :
    {s : System} {k : ℕ} {t : ThreadStream} {d l : List String}
    → IsWhole s
    → s.writers k ≡ writing t d l
    → IsGuarded s.files t
writing-IsGuarded {s} {k} {t} {d} {l} v e = v.guarded k t (subst (Has t) (sym e) (writes_out d l))

-- Two destructors at one target are one.
pub same_writer :
    {s : System} {k k' : ℕ} {t t' : ThreadStream} {d l d' l' : List String}
    → IsWhole s
    → s.writers k ≡ writing t d l
    → s.writers k' ≡ writing t' d' l'
    → t.os ≡ t'.os
    → k ≡ k'
same_writer {s} {k} {k'} {t} {t'} {d} {l} {d'} {l'} v e e' q =
    v.alone k k' t t' d l d' l' e e'
      (guarded_same s.files t t' (writing-IsGuarded v e) (writing-IsGuarded v e') q)
