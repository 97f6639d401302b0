-- ===== src/Async/History/Traced.antt =====
-- Every state that is reached.
use lo_ra_ham_daemon.Base.{[], ap, arith, refl, sym, ◌++◌, ◌∷◌, ◌≡◌}
use mathlib.Core.Path.{subst}
use lo_ra_ham_daemon.TxJob.{Job}
use lo_ra_ham_daemon.TxQueue.{pop, discard_all}
use lo_ra_ham_daemon.TxQueue as Jobs
use lo_ra_ham_daemon.TxQueue.Fifo.{to_list}
use lo_ra_ham_daemon.TxWorker.{TxWorker, record_result}
use lo_ra_ham_daemon.TxWorker as Worker
use lo_ra_ham_daemon.Async.{init, absent, System, Step, Reach, initial}
use lo_ra_ham_daemon.Async.Accounting.{Inv, Reach-Inv}
use lo_ra_ham_daemon.Ring.{entries}
use lo_ra_ham_daemon.Async.History.{
  handed, Log, empty_log, step_log, logged, in_hand, to_record, HasRecorded, IsTraced,
}
use lo_ra_ham_daemon.Async.History.Queue.{submits-IsTraced, stop_begins-IsTraced, takes-IsTraced}
use lo_ra_ham_daemon.Async.History.Steps.{
  finishes-IsTraced, reports-IsTraced, starts-IsTraced, start_fails-IsTraced, stop_ends-IsTraced,
  quits-IsTraced,
}

fresh-IsTraced :
    (d : Job) (s : System)
    → s.thread ≡ absent
    → s.async.worker ≡ Worker.init d
    → IsTraced d s empty_log
unfolding Worker.init Jobs.init entries
fresh-IsTraced d s h e = record {
  waiting = ap (λ x. to_list d x.queue) (sym e);
  dropped = ap (λ x. x.queue.dropped) e;
  hands = ap in_hand (sym h);
  answered = tt;
  recorded = omega (arith, ap to_record h, ap (λ x. x.processed) e);
  newest = subst (HasRecorded [] s.async.worker.last_result) (sym h) (ap (λ x. x.last_result) e);
}

inits-IsTraced :
    (d : Job) (s : System)
    → s.thread ≡ absent
    → IsTraced d (record s { async = init d s.async }) empty_log
unfolding init
inits-IsTraced d s h = fresh-IsTraced d (record s { async = init d s.async }) h refl

-- Each step keeps the log and the state in step.
Step-IsTraced :
    {d : Job} {s t : System} {log : Log}
    → Inv d s
    → IsTraced d s log
    → (st : Step d s t) → IsTraced d t (step_log st log)
Step-IsTraced {d} {s} {t} {log} v w (Step.starts m e p) =
    subst (λ u. IsTraced d u log) (sym p) (starts-IsTraced v w m e)
Step-IsTraced {d} {s} {t} {log} v w (Step.start_fails m e p) =
    subst (λ u. IsTraced d u log) (sym p) (start_fails-IsTraced v w)
Step-IsTraced {d} {s} {t} {log} v w (Step.submits job m p) =
    subst (λ u. IsTraced d u (step_log {d = d} {s = s} (Step.submits job m p) log)) (sym p)
      (submits-IsTraced v w job)
Step-IsTraced {d} {s} {t} {log} v w (Step.stop_begins m p) =
    subst (λ u. IsTraced d u (step_log {d = d} {s = s} (Step.stop_begins m p) log)) (sym p)
      (stop_begins-IsTraced v w)
Step-IsTraced {d} {s} {t} {log} v w (Step.stop_ends m h p) =
    subst (λ u. IsTraced d u log) (sym p) (stop_ends-IsTraced v w h)
Step-IsTraced {d} {s} {t} {log} v w (Step.inits m h p) =
    subst (λ u. IsTraced d u empty_log) (sym p) (inits-IsTraced d s h)
Step-IsTraced {d} {s} {t} {log} v w (Step.takes job a h e p) =
    subst (λ u. IsTraced d u (record log { left = log.left ++ (handed, job) ∷ [] })) (sym p)
      (takes-IsTraced v w job a h e)
Step-IsTraced {d} {s} {t} {log} v w (Step.quits a h e p) =
    subst (λ u. IsTraced d u log) (sym p) (quits-IsTraced v w a h e)
Step-IsTraced {d} {s} {t} {log} v w (Step.finishes job r h x p) =
    subst (λ u. IsTraced d u (record log { ended = log.ended ++ (job, r) ∷ [] })) (sym p)
      (finishes-IsTraced v w job r h x)
Step-IsTraced {d} {s} {t} {log} v w (Step.reports r h p) =
    subst (λ u. IsTraced d u log) (sym p) (reports-IsTraced v w r h)

-- In every state that the two threads reach from the initial one, in any order of their steps, the
-- counters and flags are right (`Inv`) and every job is traced since the last `init` (`IsTraced`). The
-- accepted jobs, in their order, are those that have left the queue, then those that wait. What has
-- left it was handed to the worker, or was thrown away by a stop and counted as dropped. The jobs
-- handed to the worker, in their order, are those whose execution has ended, each with a result that
-- answers this very job, then the one being executed. As many results are recorded as executions
-- have ended, and the newest of these is the result recorded last, but for one that is still to be
-- recorded. So no accepted job is lost, executed twice or replaced by another.
pub Reach-IsTraced :
    {d : Job} {s : System} (r : Reach d (initial d) s) → Inv d s × IsTraced d s (logged r)
unfolding initial
Reach-IsTraced {d} Reach.here = (Reach-Inv Reach.here, fresh-IsTraced d (initial d) refl refl)
Reach-IsTraced {d} (Reach.next r st) =
    let (v, w) = Reach-IsTraced r in (Reach-Inv (Reach.next r st), Step-IsTraced v w st)
