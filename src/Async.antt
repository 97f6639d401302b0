-- ===== src/Async.antt =====
-- loraham_daemon/daemon_tx_async_worker.cpp: the thread that sends the queued jobs, and the main
-- thread that submits them, starts it and stops it. Each section under the lock is one step; what
-- a thread does between two of them is in its program counter. The callbacks that `configure`
-- stores are the environment. Waking up is left out: a waiting thread may look again at any time.
pub mod Accounting
pub mod History
mod Tests
use lo_ra_ham_daemon.Base.{
  Bool, false, if◌then◌else◌, none, not, some, true, ◌&&◌, ◌+◌, ◌==◌, ◌≡◌, ◌⊎◌,
}
use lo_ra_ham_daemon.TxJob.{Job, JobResult}
use lo_ra_ham_daemon.TxQueue.{pop, discard_all}
use lo_ra_ham_daemon.TxWorker.{TxWorker, record_result}
use lo_ra_ham_daemon.TxWorker as Worker
use lo_ra_ham_daemon.TxExecutor.Answers.{Answers}

pub record AsyncWorker : Type 0 where
  pub worker : TxWorker
  pub running : Bool
  pub stop_requested : Bool
  pub job_active : Bool

unfoldable pub init : Job → AsyncWorker → AsyncWorker
init d a = record a { worker = Worker.init d; running = false; stop_requested = false }

-- The locked section of `start`: true where a thread is to be created.
unfoldable pub start_section : AsyncWorker → Bool × AsyncWorker
start_section a =
    if a.running then (false, a) else (true, record a { stop_requested = false; running = true })

-- What the locked section at the head of the thread's loop decides.
pub data Section : Type 0 where
  wait : Section
  quit : AsyncWorker → Section
  take : Job → AsyncWorker → Section

unfoldable pub loop_section : Job → AsyncWorker → Section
loop_section d a =
    let pending = a.worker.queue.count in
    if not a.stop_requested && pending == 0
    then wait
    else if a.stop_requested && pending == 0
    then quit (record a { running = false })
    else elim (pop d a.worker.queue) [
      | none ↦ wait
      | some (job, q) ↦
          take job (record a { worker = record (a.worker) { queue = q }; job_active = true })
    ]

-- After the job has been executed, and then under the lock again.
unfoldable pub finish : AsyncWorker → AsyncWorker
finish a = record a { job_active = false }

unfoldable pub report : AsyncWorker → JobResult → AsyncWorker
report a r = record a { worker = (record_result {S = Unit {0}} none r (a.worker, tt)).0 }

unfoldable pub stop_section : Job → AsyncWorker → AsyncWorker
stop_section d a = record a {
  stop_requested = true;
  worker = record (a.worker) { queue = (discard_all d a.worker.queue).1 };
}

unfoldable pub stop_end : AsyncWorker → AsyncWorker
stop_end a = record a { running = false }

unfoldable pub submit : AsyncWorker → Job → Bool × AsyncWorker
submit a job =
    let (accepted, w) = Worker.submit a.worker job in
    if a.stop_requested
    then (false, record a { worker = record (a.worker) { rejected = a.worker.rejected + 1 } })
    else (accepted, record a { worker = w })

-- Where the worker thread is: not created or joined, at the head of its loop, executing a job
-- with the lock released, about to record a result, or returned from its loop.
pub data Thread : Type 0 where
  absent looping exited : Thread
  executing : Job → Thread
  reporting : JobResult → Thread

-- Where the main thread is: outside the worker, or in `stop` between its sections.
pub data Main : Type 0 where
  outside stopping : Main

pub record System : Type 0 where
  pub async : AsyncWorker
  pub thread : Thread
  pub main : Main

-- One step of either thread. A thread is created only where `start` found none running, joined only
-- when it has returned, and `init` is called only when there is none.
pub data Step (d : Job) (s t : System) : Type 0 where
  starts :
      s.main ≡ outside
      → (start_section s.async).0 ≡ true
      → t ≡ record s { async = (start_section s.async).1; thread = looping }
      → Step d s t
  start_fails :
      s.main ≡ outside
      → (start_section s.async).0 ≡ true
      → t ≡ record s { async = stop_end (start_section s.async).1 }
      → Step d s t
  submits :
      (job : Job) → s.main ≡ outside → t ≡ record s { async = (submit s.async job).1 } → Step d s t
  stop_begins :
      s.main ≡ outside
      → t ≡ record s { async = stop_section d s.async; main = stopping }
      → Step d s t
  stop_ends :
      s.main ≡ stopping
      → (s.thread ≡ absent) ⊎ (s.thread ≡ exited)
      → t ≡ record { async = stop_end s.async; thread = absent; main = outside }
      → Step d s t
  inits :
      s.main ≡ outside → s.thread ≡ absent → t ≡ record s { async = init d s.async } → Step d s t
  takes :
      (job : Job) (a : AsyncWorker)
      → s.thread ≡ looping
      → loop_section d s.async ≡ take job a
      → t ≡ record s { async = a; thread = executing job }
      → Step d s t
  quits :
      (a : AsyncWorker)
      → s.thread ≡ looping
      → loop_section d s.async ≡ quit a
      → t ≡ record s { async = a; thread = exited }
      → Step d s t
  finishes :
      (job : Job) (r : JobResult)
      → s.thread ≡ executing job
      → Answers job r
      → t ≡ record s { async = finish s.async; thread = reporting r }
      → Step d s t
  reports :
      (r : JobResult)
      → s.thread ≡ reporting r
      → t ≡ record s { async = report s.async r; thread = looping }
      → Step d s t

pub data Reach (d : Job) (s : System) : System → Type 0 where
  here : Reach d s s
  next : {t u : System} → Reach d s t → Step d t u → Reach d s u

-- A worker in static storage, after its first `init`.
unfoldable pub initial : Job → System
initial d = record {
  async = record {
    worker = Worker.init d;
    running = false;
    stop_requested = false;
    job_active = false;
  };
  thread = absent;
  main = outside;
}
