-- ===== src/Async/Accounting.antt =====
-- The invariant of the two threads, and what it says of every schedule.
use lo_ra_ham_daemon.Base.{Bool, arith, false, refl, sym, true, ℕ, ◌+◌, ◌≡◌, ◌≢◌, ◌≤◌, ◌⊎◌}
use mathlib.Core.Path.{subst}
use lo_ra_ham_daemon.TxJob.{Job, JobResult}
use lo_ra_ham_daemon.TxQueue as Jobs
use lo_ra_ham_daemon.TxQueue.{pop, discard_all}
use lo_ra_ham_daemon.TxQueue.Fifo.{IsRing, init-IsRing, pop_cases, discard_all_lem}
use lo_ra_ham_daemon.TxWorker.{TxWorker, record_result}
use lo_ra_ham_daemon.TxWorker as Worker
use lo_ra_ham_daemon.TxWorker.Counts.{submit_cases}
use lo_ra_ham_daemon.Async.{
  AsyncWorker, init, start_section, quit, take, loop_section, finish, report, stop_section,
  stop_end, submit, Thread, absent, looping, exited, executing, reporting, outside, stopping,
  System, Step, Reach, initial,
}

-- Jobs taken from the queue whose result is not recorded yet.
abbrev pub in_flight : Thread → ℕ
in_flight (executing _) = 1
in_flight (reporting _) = 1
in_flight _ = 0

abbrev pub is_executing : Thread → Bool
is_executing (executing _) = true
is_executing _ = false

-- The thread is in its loop.
abbrev pub is_alive : Thread → Bool
is_alive absent = false
is_alive exited = false
is_alive _ = true

pub record Inv (d : Job) (s : System) : Type 0 where
  pub ring : IsRing d s.async.worker.queue
  pub accounted :
      s.async.worker.accepted
      ≡ s.async.worker.processed
        + s.async.worker.queue.count
        + in_flight s.thread
        + s.async.worker.queue.dropped
  pub active : s.async.job_active ≡ is_executing s.thread
  pub alive : s.async.running ≡ is_alive s.thread
  pub emptied : s.async.stop_requested ≡ true → s.async.worker.queue.count ≡ 0
  pub parked : s.main ≡ outside → s.async.stop_requested ≡ true → s.thread ≡ absent
  pub asked : s.main ≡ stopping → s.async.stop_requested ≡ true
  pub joined : s.thread ≡ exited → s.async.stop_requested ≡ true

initial-Inv : (d : Job) → Inv d (initial d)
unfolding initial Worker.init Jobs.init
initial-Inv d = record {
  ring = init-IsRing d;
  accounted = omega arith;
  active = refl;
  alive = refl;
  emptied = λ e. cc;
  parked = λ _ _. refl;
  asked = λ e. cc;
  joined = λ e. cc;
}

module _ (d : Job) (s : System) (v : Inv d s) where
  -- A main thread outside the worker sees no thread that has returned unjoined.
  pub idle_absent : s.main ≡ outside → s.async.running ≡ false → s.thread ≡ absent
  idle_absent m r = ground (arith, v.alive, v.parked, v.joined)

  starts-Inv :
      s.main ≡ outside
      → (start_section s.async).0 ≡ true
      → Inv d (record s { async = (start_section s.async).1; thread = looping })
  unfolding start_section
  starts-Inv m e =
      let stopped : s.async.running ≡ false = ground arith in
      ground (arith, stopped, idle_absent m stopped)

  start_fails-Inv :
      s.main ≡ outside
      → (start_section s.async).0 ≡ true
      → Inv d (record s { async = stop_end (start_section s.async).1 })
  unfolding start_section stop_end
  start_fails-Inv m e =
      let stopped : s.async.running ≡ false = ground arith in
      ground (arith, stopped, idle_absent m stopped)

  submits-Inv : (job : Job) → s.main ≡ outside → Inv d (record s { async = (submit s.async job).1 })
  unfolding submit
  submits-Inv job m = ground (arith, submit_cases d s.async.worker job v.ring)

  stop_begins-Inv :
      s.main ≡ outside → Inv d (record s { async = stop_section d s.async; main = stopping })
  unfolding stop_section
  stop_begins-Inv m = ground (arith, discard_all_lem d s.async.worker.queue)

  stop_ends-Inv :
      s.main ≡ stopping
      → (s.thread ≡ absent) ⊎ (s.thread ≡ exited)
      → Inv d (record { async = stop_end s.async; thread = absent; main = outside })
  unfolding stop_end
  stop_ends-Inv m t = ground arith

  inits-Inv : s.main ≡ outside → s.thread ≡ absent → Inv d (record s { async = init d s.async })
  unfolding init Worker.init Jobs.init
  inits-Inv m t = ground (arith, init-IsRing d)

  takes-Inv :
      (job : Job) (a : AsyncWorker)
      → s.thread ≡ looping
      → loop_section d s.async ≡ take job a
      → Inv d (record s { async = a; thread = executing job })
  unfolding loop_section
  takes-Inv job a t e = ground (arith, pop_cases d s.async.worker.queue v.ring)

  quits-Inv :
      (a : AsyncWorker)
      → s.thread ≡ looping
      → loop_section d s.async ≡ quit a
      → Inv d (record s { async = a; thread = exited })
  unfolding loop_section
  quits-Inv a t e = ground arith

  finishes-Inv :
      (job : Job) (r : JobResult)
      → s.thread ≡ executing job
      → Inv d (record s { async = finish s.async; thread = reporting r })
  unfolding finish
  finishes-Inv job r t = ground arith

  reports-Inv :
      (r : JobResult)
      → s.thread ≡ reporting r
      → Inv d (record s { async = report s.async r; thread = looping })
  unfolding report record_result
  reports-Inv r t = ground arith

-- No step of either thread breaks the invariant.
Step-Inv : {d : Job} {s t : System} → Inv d s → Step d s t → Inv d t
Step-Inv {d} {s} v (Step.starts m e p) = subst (Inv d) (sym p) (starts-Inv d s v m e)
Step-Inv {d} {s} v (Step.start_fails m e p) = subst (Inv d) (sym p) (start_fails-Inv d s v m e)
Step-Inv {d} {s} v (Step.submits job m p) = subst (Inv d) (sym p) (submits-Inv d s v job m)
Step-Inv {d} {s} v (Step.stop_begins m p) = subst (Inv d) (sym p) (stop_begins-Inv d s v m)
Step-Inv {d} {s} v (Step.stop_ends m h p) = subst (Inv d) (sym p) (stop_ends-Inv d s v m h)
Step-Inv {d} {s} v (Step.inits m h p) = subst (Inv d) (sym p) (inits-Inv d s v m h)
Step-Inv {d} {s} v (Step.takes job a h e p) = subst (Inv d) (sym p) (takes-Inv d s v job a h e)
Step-Inv {d} {s} v (Step.quits a h e p) = subst (Inv d) (sym p) (quits-Inv d s v a h e)
Step-Inv {d} {s} v (Step.finishes job r h _ p) = subst (Inv d) (sym p) (finishes-Inv d s v job r h)
Step-Inv {d} {s} v (Step.reports r h p) = subst (Inv d) (sym p) (reports-Inv d s v r h)

-- In every state that the two threads reach from the initial one, in any order of their steps.
pub Reach-Inv : {d : Job} {s : System} → Reach d (initial d) s → Inv d s
Reach-Inv {d} Reach.here = initial-Inv d
Reach-Inv (Reach.next r st) = Step-Inv (Reach-Inv r) st

-- Only the end of `stop` lets the main thread out of it.
stop_leaves :
    {d : Job} {s t : System}
    → Step d s t
    → s.main ≡ stopping
    → t.main ≡ outside
    → (t.thread ≡ absent) × (t.async ≡ stop_end s.async)
stop_leaves (Step.starts m e p) a b = ground arith
stop_leaves (Step.start_fails m e p) a b = ground arith
stop_leaves (Step.submits job m p) a b = ground arith
stop_leaves (Step.stop_begins m p) a b = ground arith
stop_leaves (Step.stop_ends m h p) a b = ground arith
stop_leaves (Step.inits m h p) a b = ground arith
stop_leaves (Step.takes job w h e p) a b = ground arith
stop_leaves (Step.quits w h e p) a b = ground arith
stop_leaves (Step.finishes job r h _ p) a b = ground arith
stop_leaves (Step.reports r h p) a b = ground arith

-- When `stop` has returned, from any state that is reached and whatever the worker was doing: the
-- thread is gone, nothing waits, nothing is being sent, every accepted job is recorded or dropped,
-- and the next submission is refused.
pub stop_quiet :
    {d : Job} (s t : System) (job : Job)
    → Reach d (initial d) s
    → s.main ≡ stopping
    → Step d s t
    → t.main ≡ outside
    → (t.thread ≡ absent)
      × (t.async.running ≡ false)
      × (t.async.job_active ≡ false)
      × (t.async.worker.queue.count ≡ 0)
      × (t.async.worker.accepted ≡ t.async.worker.processed + t.async.worker.queue.dropped)
      × ((submit t.async job).0 ≡ false)
unfolding submit stop_end
stop_quiet {d} s t job r m st o =
    let before = Reach-Inv r in
    let v = Reach-Inv (Reach.next r st) in
    let (gone, ended) = stop_leaves st m o in
    ground (arith, before.asked m, v.active, v.accounted, v.emptied, gone, ended)

-- A daemon that finds no waiting job and no job in execution, in any state that is reached, may
-- retune the radio: no job is being sent, not even one that has just left the queue, and at most
-- one accepted job has its result still to be recorded.
idle_is_safe :
    {d : Job} (s : System) (job : Job)
    → Reach d (initial d) s
    → s.async.worker.queue.count ≡ 0
    → s.async.job_active ≡ false
    → (s.thread ≢ executing job)
      × (s.async.worker.accepted ≤ s.async.worker.processed + s.async.worker.queue.dropped + 1)
idle_is_safe s job r none_waiting none_active =
    let v = Reach-Inv r in ground (arith, v.active, v.accounted)
