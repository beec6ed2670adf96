-- ===== src/Tests/CourseTests.antt =====
-- Calls of `StartFileTransfer` and the table of transactions on concrete inputs.
use trftp.Base.{ℕ, ◌≡◌, refl, arith, List, [], ◌∷◌, sym, subst, ◌<◌, u32_mod}
use trftp.Message.{ntf, fin, rdy, u32_bytes}
use trftp.Crc.File.{calculate_file_crc32-eq, calculate_crc32-lt}
use trftp.ServerTransaction.{ServerTransaction, send_message}
use trftp.ClientTransaction.{ClientTransaction}
use trftp.Server.{Text, Table, abort_file_transfer, Course, cancels, apply_all, drive}
use trftp.Server.Table.{Aborts, abort_file_transfer-Aborts}
use trftp.Server.Drive.{Reported, drive-fin}
use trftp.Server.Answers.{answering, drive-answered}
use trftp.Server.Threads.{notifying, commands, erases}
use trftp.Server.Threads.Courses.{Lives, met, drive-Lives}
use trftp.Server.Threads.Finished.{TakesReport, Life-TakesReport}
use trftp.Server.Missed.{early, drive-early}
use trftp.Tests.{replicate, raw_message, some_address, sending, receiving}

abbrev file : List ℕ
file = replicate 1409

abbrev server : ServerTransaction
server = sending file 1409 2

abbrev client : ClientTransaction
client = receiving rdy 2 1409 server.new_file_crc32 []

abbrev course : Course
course =
    answering server client raw_message (λ _. raw_message) (λ _. raw_message) (u32_bytes 1)
      (1 ∷ 2 ∷ 3 ∷ 4 ∷ 5 ∷ 6 ∷ 7 ∷ 8 ∷ 9 ∷ 10 ∷ 11 ∷ 12 ∷ []) some_address

crc_lt : server.new_file_crc32 < u32_mod
crc_lt = subst (λ n. n < u32_mod) (sym (calculate_file_crc32-eq file)) (calculate_crc32-lt file _ 0)

drive-answered_example : (drive course server).0 ≡ fin
drive-answered_example =
    drive-answered server client raw_message (λ _. raw_message) (λ _. raw_message) (u32_bytes 1)
      (1 ∷ 2 ∷ 3 ∷ 4 ∷ 5 ∷ 6 ∷ 7 ∷ 8 ∷ 9 ∷ 10 ∷ 11 ∷ 12 ∷ []) some_address refl refl
      (refl, omega arith) (refl, omega arith) (refl, crc_lt)

course-fin : (drive course server).0 ≡ fin
course-fin =
    drive-answered server client raw_message (λ _. raw_message) (λ _. raw_message) (u32_bytes 1)
      (1 ∷ 2 ∷ 3 ∷ 4 ∷ 5 ∷ 6 ∷ 7 ∷ 8 ∷ 9 ∷ 10 ∷ 11 ∷ 12 ∷ []) some_address refl refl
      (refl, omega arith) (refl, omega arith) (refl, crc_lt)

drive-fin_example : Reported server course.sending
drive-fin_example = drive-fin course server course-fin

abbrev missed : Course
missed = record {
  notified = early (cancels raw_message ∷ []);
  informed = early [];
  sending = early [];
  raw = raw_message;
}

drive-early_example :
    ((drive missed server).0 ≡ ntf)
    × ((drive missed server).1
        ≡ apply_all (cancels raw_message ∷ []) (send_message ntf raw_message server).0)
drive-early_example =
    drive-early (cancels raw_message ∷ []) (early []) (early []) raw_message server

-- "10.0.0.1", and the same with a port.
abbrev ip : Text
ip = 49 ∷ 48 ∷ 46 ∷ 48 ∷ 46 ∷ 48 ∷ 46 ∷ 49 ∷ []

abbrev uri : Text
uri = 49 ∷ 48 ∷ 46 ∷ 48 ∷ 46 ∷ 48 ∷ 46 ∷ 49 ∷ 58 ∷ 55 ∷ []

abbrev active : Table
active = (49 ∷ [], server) ∷ []

abort_file_transfer-Aborts_example :
    Aborts raw_message ip ip
      ((ip, server) ∷ active)
      (abort_file_transfer raw_message ip ((ip, server) ∷ active))
abort_file_transfer-Aborts_example =
    abort_file_transfer-Aborts raw_message ip ip ((ip, server) ∷ active)

-- An interleaving of the course that ends in FIN.
course-Lives :
    Lives server (commands notifying) (met course server) (drive course server).1 (erases fin)
course-Lives =
    subst
      (λ id.
        Lives server (commands notifying) (met course server) (drive course server).1 (erases id))
      course-fin (drive-Lives course server)

Life-TakesReport_example : TakesReport course-Lives.1
Life-TakesReport_example =
    Life-TakesReport server (drive course server).1 (met course server) course-Lives.0 (λ e. cc)
      course-Lives.1
