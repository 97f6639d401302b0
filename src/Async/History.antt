-- ===== src/Async/History.antt =====
-- A record of the jobs beside the steps of the two threads, and what holds of it.
pub mod Lists
pub mod Queue
pub mod Steps
pub mod Traced
use lo_ra_ham_daemon.Base.{
  All, List, Option, [], if◌then◌else◌, length, none, some, ℕ, ◌++◌, ◌+◌, ◌∷◌, ◌≡◌,
}
use mathlib.Core.Path.{subst}
use lo_ra_ham_daemon.TxJob.{Job, JobResult}
use lo_ra_ham_daemon.TxExecutor.Answers.{Answers}
use lo_ra_ham_daemon.TxQueue.{pop, discard_all}
use lo_ra_ham_daemon.TxQueue as Jobs
use lo_ra_ham_daemon.TxQueue.Fifo.{IsRing, to_list, pop_cases, discard_all_lem}
use lo_ra_ham_daemon.TxWorker.{TxWorker, record_result}
use lo_ra_ham_daemon.TxWorker as Worker
use lo_ra_ham_daemon.TxWorker.Counts.{submit_cases}
use lo_ra_ham_daemon.Async.{
  AsyncWorker, init, start_section, take, quit, loop_section, finish, report, stop_section,
  stop_end, submit, Thread, absent, looping, exited, executing, reporting, outside, stopping,
  System, Step, Reach, initial,
}
use lo_ra_ham_daemon.Async.Accounting.{Inv, Reach-Inv, idle_absent}
use lo_ra_ham_daemon.Ring.{entries, length-entries}

-- How a job leaves the queue: into the worker's hands, or thrown away by `stop`.
pub data Fate : Type 0 where
  handed discarded : Fate

-- The jobs accepted since the last `init`, those that left the queue, and those whose execution has ended
-- with their results; each in the order of time.
pub record Log : Type 0 where
  pub accepted : List Job
  pub left : List (Fate × Job)
  pub ended : List (Job × JobResult)

abbrev pub empty_log : Log
empty_log = record { accepted = []; left = []; ended = [] }

abbrev pub jobs_of : List (Fate × Job) → List Job
jobs_of [] = []
jobs_of ((fate, job) ∷ left) = job ∷ jobs_of left

abbrev pub with_fate : Fate → List (Fate × Job) → List Job
with_fate fate [] = []
with_fate handed ((handed, job) ∷ left) = job ∷ with_fate handed left
with_fate handed ((discarded, job) ∷ left) = with_fate handed left
with_fate discarded ((handed, job) ∷ left) = with_fate discarded left
with_fate discarded ((discarded, job) ∷ left) = job ∷ with_fate discarded left

abbrev pub executed : List (Job × JobResult) → List Job
executed [] = []
executed ((job, r) ∷ ended) = job ∷ executed ended

abbrev pub all_discarded : List Job → List (Fate × Job)
all_discarded [] = []
all_discarded (job ∷ jobs) = (discarded, job) ∷ all_discarded jobs

abbrev pub step_log : {d : Job} {s t : System} → Step d s t → Log → Log
step_log {d} {s} (Step.submits job m p) log =
    if (submit s.async job).0 then record log { accepted = log.accepted ++ job ∷ [] } else log
step_log {d} {s} (Step.stop_begins m p) log = record log {
  left = log.left ++ all_discarded (to_list d s.async.worker.queue);
}
step_log (Step.inits m h p) log = empty_log
step_log (Step.takes job a h e p) log = record log { left = log.left ++ (handed, job) ∷ [] }
step_log (Step.finishes job r h x p) log = record log { ended = log.ended ++ (job, r) ∷ [] }
step_log (Step.starts m e p) log = log
step_log (Step.start_fails m e p) log = log
step_log (Step.stop_ends m h p) log = log
step_log (Step.quits a h e p) log = log
step_log (Step.reports r h p) log = log

abbrev pub logged : {d : Job} {s t : System} → Reach d s t → Log
logged Reach.here = empty_log
logged (Reach.next r st) = step_log st (logged r)

abbrev pub in_hand : Thread → List Job
in_hand (executing job) = job ∷ []
in_hand _ = []

abbrev pub to_record : Thread → ℕ
to_record (reporting r) = 1
to_record _ = 0

abbrev pub newest_of : List (Job × JobResult) → Option JobResult
newest_of [] = none
newest_of ((job, r) ∷ []) = some r
newest_of (_ ∷ e ∷ ended) = newest_of (e ∷ ended)

-- The result recorded last is the newest one, but for one that is still to be recorded.
abbrev pub HasRecorded : List (Job × JobResult) → Option JobResult → Thread → Type 0
HasRecorded ended last (reporting r) =
    (before : List (Job × JobResult)) × (job : Job) × (ended ≡ before ++ (job, r) ∷ [])
    × (last ≡ newest_of before)
HasRecorded ended last _ = last ≡ newest_of ended

pub record IsTraced (d : Job) (s : System) (log : Log) : Type 0 where
  pub waiting : log.accepted ≡ jobs_of log.left ++ to_list d s.async.worker.queue
  pub dropped : s.async.worker.queue.dropped ≡ length (with_fate discarded log.left)
  pub hands : with_fate handed log.left ≡ executed log.ended ++ in_hand s.thread
  pub answered : All (λ e. Answers e.0 e.1) log.ended
  pub recorded : s.async.worker.processed + to_record s.thread ≡ length log.ended
  pub newest : HasRecorded log.ended s.async.worker.last_result s.thread
