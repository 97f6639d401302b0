-- ===== src/TxWorker.antt =====
-- loraham_daemon/daemon_tx_worker.cpp: the job queue with its counters and the last result.
-- Counters are size_t and are not made to wrap.
pub mod Counts
use lo_ra_ham_daemon.Base.{Bool, Option, false, none, some, true, ℕ, ◌+◌}
use lo_ra_ham_daemon.TxJob.{Job, JobResult}
use lo_ra_ham_daemon.TxQueue.{TxQueue}
use lo_ra_ham_daemon.TxQueue as Queue

pub record TxWorker : Type 0 where
  pub queue : TxQueue Job
  pub accepted : ℕ
  pub rejected : ℕ
  pub processed : ℕ
  pub last_result : Option JobResult

unfoldable pub init : Job → TxWorker
init d = record {
  queue = Queue.init d;
  accepted = 0;
  rejected = 0;
  processed = 0;
  last_result = none;
}

-- The flag is false for the return value -1.
unfoldable pub submit : TxWorker → Job → Bool × TxWorker
submit w job = elim (Queue.push w.queue job) [
  | none ↦ (false, record w { rejected = w.rejected + 1 })
  | some q ↦ (true, record w { queue = q; accepted = w.accepted + 1 })
]

-- `result_fn` is called with the result, if there is one.
unfoldable pub record_result :
    {S : Type 0} → Option (S → JobResult → S) → JobResult → TxWorker × S → TxWorker × S
record_result result_fn result (w, s) = (
  record w { last_result = some result; processed = w.processed + 1 },
  elim result_fn [ none ↦ s | some f ↦ f s result ],
)

-- `execute` is the executor with the sender; the jobs come from the worker's own queue.
unfoldable pub drain :
    {S : Type 0}
    → (S → Job → S × JobResult)
    → Option (S → JobResult → S)
    → Job
    → ℕ
    → TxWorker
    → S
    → ℕ × TxWorker × S
unfolding record_result
drain {S} execute result_fn d max_jobs w s =
    let run : TxWorker × S → Job → TxWorker × S = λ (c : TxWorker × S) job.
      let (s', r) = execute c.1 job in record_result result_fn r (c.0, s') in
    let (n, q, c) = Queue.drain run d max_jobs w.queue (w, s) in
    (n, record (c.0) { queue = q }, c.1)
