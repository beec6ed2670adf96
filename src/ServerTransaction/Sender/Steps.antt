-- ===== src/ServerTransaction/Sender/Steps.antt =====
-- Runs of the sender, put together from their steps.
use trftp.Base.{ℕ, suc, ◌≡◌, refl, ap, ◌∙◌}
use trftp.Message.{TrftpMessage}
use trftp.ServerTransaction.{Disk}
use trftp.ServerTransaction.Sender.{Sender, sender_step, run}

module _ (disk : Disk) (raws : ℕ → TrftpMessage) where
  -- One step in front of a run.
  pub step_then :
      (n : ℕ) (s : Sender) {m u : Sender}
      → sender_step disk (raws s.tran.packet_sequence_number) s ≡ m
      → run n disk raws m ≡ u
      → run (suc n) disk raws s ≡ u
  unfolding run
  step_then n s e r = ap (run n disk raws) e ∙ r

  pub run_none : (s : Sender) → run 0 disk raws s ≡ s
  unfolding run
  run_none s = refl
