-- ===== src/TxQueue.antt =====
-- loraham_daemon/daemon_tx_queue.cpp: the bounded queue of jobs, in a circular array.
-- `d` is the job that memset writes.
pub mod Fifo
pub mod Drain
mod Tests
use lo_ra_ham_daemon.Base.{
  Bool, List, Option, false, get_or, if◌then◌else◌, leb, ltb, none, replicate, set, some, suc, true,
  zero, ℕ, ◌%◌, ◌&&◌, ◌+◌, ◌-◌, ◌==◌, ◌||◌,
}

abbrev pub capacity : ℕ
capacity = 8

pub record TxQueue (A : Type 0) : Type 0 where
  pub jobs : List A
  pub head : ℕ
  pub tail : ℕ
  pub count : ℕ
  pub dropped : ℕ

module _ {A : Type 0} where
  unfoldable pub init : A → TxQueue A
  init d = record { jobs = replicate capacity d; head = 0; tail = 0; count = 0; dropped = 0 }

  unfoldable pub is_full : TxQueue A → Bool
  is_full q = leb capacity q.count

  -- none is the return value -1: the queue stays as it is.
  unfoldable pub push : TxQueue A → A → Option (TxQueue A)
  unfolding is_full
  push q job =
      if is_full q
      then none
      else some (record q {
        jobs = set q.jobs q.tail job;
        tail = (q.tail + 1) % capacity;
        count = q.count + 1;
      })

  unfoldable pub pop : A → TxQueue A → Option (A × TxQueue A)
  pop d q =
      if q.count == 0
      then none
      else some
          (get_or q.jobs q.head d, record q { head = (q.head + 1) % capacity; count = q.count - 1 })

  unfoldable pub discard_all : A → TxQueue A → ℕ × TxQueue A
  discard_all d q = (
    q.count,
    record {
      jobs = replicate capacity d;
      head = 0;
      tail = 0;
      count = 0;
      dropped = q.dropped + q.count;
    },
  )

  -- One round of the drain's loop for each unit of fuel; `run` executes a job and reports its
  -- result, and stands for the sender and the result callback.
  unfoldable pub drain_loop :
      {S : Type 0} → (S → A → S) → A → ℕ → ℕ → ℕ → TxQueue A → S → ℕ × TxQueue A × S
  drain_loop run d zero max_jobs processed q s = (processed, q, s)
  drain_loop run d (suc fuel) max_jobs processed q s =
      elim (ltb 0 q.count && (max_jobs == 0 || ltb processed max_jobs)) [
        | false ↦ (processed, q, s)
        | true ↦ elim (pop d q) [
          | none ↦ (processed, q, s)
          | some (job, rest) ↦ drain_loop run d fuel max_jobs (processed + 1) rest (run s job)
        ]
      ]

  -- The fuel is one more than the jobs that wait.
  unfoldable pub drain : {S : Type 0} → (S → A → S) → A → ℕ → TxQueue A → S → ℕ × TxQueue A × S
  drain run d max_jobs q s = drain_loop run d (q.count + 1) max_jobs 0 q s
