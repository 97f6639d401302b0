-- ===== src/TxExecutor/Tests.antt =====
-- A channel that is busy once and then free.
use lo_ra_ham_daemon.Base.{List, [], arith, refl, some, true, ◌∷◌, ◌≡◌}
use lo_ra_ham_daemon.TxOutcome.{TxResult, from_tx_result}
use lo_ra_ham_daemon.TxJob.{Job, JobResult, managed, job_init, result_init}
use lo_ra_ham_daemon.TxExecutor.{Probe, free, busy, execute_with_sender_and_cad}
use lo_ra_ham_daemon.TxExecutor.Listen.{Air, silent, on_air, Ends, stable_of, execute-Ends}
use lo_ra_ham_daemon.TxExecutor.Answers.{Answers, execute-Answers, execute_returns}

-- Waits at most 4 ticks for two free probes in a row.
abbrev job : Job
unfolding job_init
job = record (job_init 433 managed 7) {
  cad_enabled = true;
  cad_wait_ticks = 4;
  cad_idle_stable_ticks = 2;
  payload = 65 ∷ [];
}

abbrev busy_first : List Probe → Probe
busy_first [] = busy
busy_first (_ ∷ _) = free

abbrev works : Job → TxResult
works _ = TxResult.ok

abbrev ends : Air × JobResult
unfolding job_init result_init from_tx_result
ends = (
  record { heard = free ∷ free ∷ busy ∷ []; sent = job ∷ [] },
  record (result_init (some job) (from_tx_result TxResult.ok)) { tx_result = TxResult.ok },
)

listened : execute_with_sender_and_cad (on_air busy_first works) 4 (some job) silent ≡ some ends
unfolding execute_with_sender_and_cad job_init result_init from_tx_result
listened = refl

execute-Ends_example : Ends busy_first works job (stable_of job) ends
unfolding job_init
execute-Ends_example =
    execute-Ends busy_first works 4 job ends refl (omega arith) (omega arith) listened

execute-Answers_example : Answers job ends.1
execute-Answers_example = execute-Answers (on_air busy_first works) 4 job silent ends listened

execute_returns_example :
    (out : Air × JobResult) × (execute_with_sender_and_cad
        (on_air busy_first works)
        4
        (some job)
        silent
      ≡ some out)
unfolding job_init
execute_returns_example =
    execute_returns (on_air busy_first works) 4 job silent (omega arith) (omega arith) (omega arith)
