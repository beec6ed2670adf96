-- ===== src/ServerTransaction/Sender/Stop.antt =====
-- A cancelled transfer: its sending thread ends, which the destructor of the transaction waits for.
use trftp.Base.{ℕ, zero, suc, ◌+◌, ◌≤◌, ◌≡◌, ◌⊎◌, refl, arith, Option, none, some, length, inl, inr}
use trftp.Message.{cxl, TrftpMessage}
use trftp.ServerTransaction.{Disk, send_message}
use trftp.ServerTransaction.Sender.{
  Pc, open_file, test, check, prepare, tail, waited, increment, exited, Sender, transmit, open_step,
  cancel, take_rtx, step_at, sender_step, run,
}

-- How many steps the thread of a cancelled transfer takes at most, and how many datagrams it sends.
Option-cases {ℓ} : {A : Type ℓ} (o : Option A) → (o ≡ none) ⊎ ((a : A) × (o ≡ some a))
Option-cases none = inl refl
Option-cases (some a) = inr (a, refl)

left : Pc → ℕ
left prepare = 6
left tail = 5
left waited = 4
left increment = 3
left open_file = 3
left test = 2
left check = 1
left exited = 0

sends_left : Pc → ℕ
sends_left prepare = 1
sends_left open_file = 1
sends_left _ = 0

-- A cancelled transfer whose thread takes `n` more steps at most, and sends no more than `m` datagrams
-- in all.
record IsStopping (n m : ℕ) (s : Sender) : Type 0 where
  cancelled : s.tran.status ≡ cxl
  steps : left s.pc ≤ n
  bounded : length s.sends + sends_left s.pc ≤ m

step_at-IsStopping :
    (pc : Pc) (disk : Disk) (raw : TrftpMessage) (s : Sender) (n m : ℕ)
    → s.pc ≡ pc
    → IsStopping (suc n) m s
    → IsStopping n m (step_at pc disk raw s)
unfolding step_at left sends_left take_rtx transmit cancel send_message
step_at-IsStopping open_file disk raw s n m e v = elim (Option-cases (disk s.tran.file_path)) [
  | inl f ↦ rw f (unfold open_step in (ground (arith, v, e)))
  | inr (c, f) ↦ rw f (unfold open_step in (ground (arith, v, e)))
]
step_at-IsStopping test disk raw s n m e v = ground (arith, v, e)
step_at-IsStopping check disk raw s n m e v = ground (arith, v, e)
step_at-IsStopping prepare disk raw s n m e v = ground (arith, v, e)
step_at-IsStopping tail disk raw s n m e v = ground (arith, v, e)
step_at-IsStopping waited disk raw s n m e v = ground (arith, v, e)
step_at-IsStopping increment disk raw s n m e v = ground (arith, v, e)
step_at-IsStopping exited disk raw s n m e v = ground (arith, v, e)

run-IsStopping :
    (k m : ℕ) (disk : Disk) (raws : ℕ → TrftpMessage) (s : Sender)
    → IsStopping k m s
    → IsStopping 0 m (run k disk raws s)
unfolding run sender_step
run-IsStopping zero m disk raws s v = v
run-IsStopping (suc k) m disk raws s v =
    let raw = raws s.tran.packet_sequence_number in
    run-IsStopping k m disk raws (step_at s.pc disk raw s)
      (step_at-IsStopping s.pc disk raw s k m refl v)

left-bounds : (pc : Pc) → (left pc ≤ 6) × (sends_left pc ≤ 1)
unfolding left sends_left
left-bounds pc = ground arith

left_none : (pc : Pc) → left pc ≤ 0 → pc ≡ exited
unfolding left
left_none pc h = ground arith

-- The sending thread of a transfer whose status is CXL, left alone, wherever it stands: six steps
-- are enough for it to end, and it sends one datagram more at most.
pub cancelled_ends :
    (disk : Disk) (raws : ℕ → TrftpMessage) (s : Sender)
    → s.tran.status ≡ cxl
    → let u = run 6 disk raws s in (u.pc ≡ exited) × (length u.sends ≤ length s.sends + 1)
unfolding sends_left
cancelled_ends disk raws s h =
    let (steps, sends) = left-bounds s.pc in
    let v =
      run-IsStopping 6 (length s.sends + 1) disk raws s
        (record { cancelled = h; steps = steps; bounded = omega (arith, sends) }) in
    (left_none _ v.steps, omega (arith, v.bounded))
