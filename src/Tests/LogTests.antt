-- ===== src/Tests/LogTests.antt =====
-- Log lines and log files on concrete inputs.
use Prim.Native.String.{String}
use trftp.Base.{
  List, put, put_here, put_there, ℕ-cases, inl, inr, refl, ap, ◌∙◌, ◌≢◌, ℕ, ◌≡◌, [], ◌∷◌,
}
use trftp.Log.Streams.{
  cout, cout_mutex, new_console, get_console_mutex, insert, console, ThreadStream,
}
use trftp.Log.Targets.{text_of, texts_of}
use trftp.Log.Writers.{
  Writer, idle, collecting, writing, System, opens_console, inserts, locks, writes, unlocks, Reach,
  here, next, silent,
}
use trftp.Log.Writers.Whole.{Reach-whole}

-- A stream to `std::cout`.
abbrev stream_of : List String → ThreadStream
stream_of buffer = record { os = console cout; os_mutex = cout_mutex; buffer = buffer }

abbrev with_writer : Writer → System → System
with_writer w s = record s { writers = put 3 w s.writers }

abbrev opened : System
opened = with_writer (collecting (stream_of [])) silent

abbrev filled : System
filled = with_writer (collecting (stream_of ("x" ∷ []))) opened

abbrev locked : System
locked = with_writer (writing (stream_of ("x" ∷ [])) [] ("x" ∷ [])) filled

abbrev written : System
written = record (with_writer (writing (stream_of ("x" ∷ [])) ("x" ∷ []) []) locked) {
  output = (console cout, "x") ∷ [];
}

abbrev unlocked : System
unlocked = record (with_writer idle written) { finished = (console cout, "x" ∷ []) ∷ [] }

-- Behind the changes of thread 3, the others are idle.
elsewhere :
    (w : Writer) (f : ℕ → Writer)
    → ((n : ℕ) → n ≢ 3 → f n ≡ idle)
    → (n : ℕ) → n ≢ 3
    → put 3 w f n ≡ idle
elsewhere w f h n e = put_there 3 n w f e ∙ h n e

filled_elsewhere : (n : ℕ) → n ≢ 3 → filled.writers n ≡ idle
filled_elsewhere = elsewhere _ _ (elsewhere _ _ (λ n e. refl))

unlocked_elsewhere : (n : ℕ) → n ≢ 3 → unlocked.writers n ≡ idle
unlocked_elsewhere = elsewhere _ _ (elsewhere _ _ (elsewhere _ _ filled_elsewhere))

filled_free :
    (j : ℕ) (t : ThreadStream) (d l : List String)
    → filled.writers j ≡ writing t d l
    → t.os_mutex ≢ cout_mutex
filled_free j t d l e = elim (ℕ-cases j 3) [
  | inl q ↦
      absurd
        (cc (ap filled.writers q, put_here 3 (collecting (stream_of ("x" ∷ []))) opened.writers, e))
  | inr n ↦ absurd (cc (filled_elsewhere j n, e))
]

unlocked_quiet :
    (k : ℕ) (t : ThreadStream) (d l : List String)
    → unlocked.writers k ≡ writing t d l
    → console cout ≢ t.os
unlocked_quiet k t d l e = elim (ℕ-cases k 3) [
  | inl q ↦ absurd (cc (ap unlocked.writers q, put_here 3 idle written.writers, e))
  | inr n ↦ absurd (cc (unlocked_elsewhere k n, e))
]

logged : Reach silent unlocked
unfolding new_console get_console_mutex insert
logged =
    next
      (next
        (next
          (next (next here (opens_console silent 3 cout (stream_of []) refl refl))
            (inserts opened 3 (stream_of []) "x" refl))
          (locks filled 3 (stream_of ("x" ∷ [])) refl filled_free))
        (writes locked 3 (stream_of ("x" ∷ [])) "x" [] [] refl))
      (unlocks written 3 (stream_of ("x" ∷ [])) ("x" ∷ []) refl)

Reach-whole_example :
    text_of (console cout) unlocked.output ≡ texts_of (console cout) unlocked.finished
Reach-whole_example = Reach-whole (console cout) logged unlocked_quiet
