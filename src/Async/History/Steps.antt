-- ===== src/Async/History/Steps.antt =====
-- The steps that leave the queue of jobs as it is.
use lo_ra_ham_daemon.Base.{
  All-append, Bool-cases, [], ap, append-nil, arith, false, inl, inr, length-append, refl, sym,
  true, ◌++◌, ◌+◌, ◌∙◌, ◌∷◌, ◌≡◌, ◌⊎◌,
}
use mathlib.Core.Path.{subst}
use lo_ra_ham_daemon.TxJob.{Job, JobResult}
use lo_ra_ham_daemon.TxExecutor.Answers.{Answers}
use lo_ra_ham_daemon.TxQueue.Fifo.{to_list}
use lo_ra_ham_daemon.TxWorker.{record_result}
use lo_ra_ham_daemon.Async.{
  AsyncWorker, start_section, quit, loop_section, finish, report, stop_end, absent, looping, exited,
  executing, reporting, outside, Thread, System,
}
use lo_ra_ham_daemon.Async.Accounting.{Inv, idle_absent}
use lo_ra_ham_daemon.Async.History.{
  Log, jobs_of, executed, in_hand, to_record, HasRecorded, newest_of, IsTraced,
}
use lo_ra_ham_daemon.Async.History.Lists.{executed-append, newest_of-append}

module _ {d : Job} {s : System} {log : Log} (v : Inv d s) (w : IsTraced d s log) where
  -- A step that leaves the worker and the jobs in hand as they are
  pub aside-IsTraced :
      (t : System)
      → t.async.worker ≡ s.async.worker
      → in_hand t.thread ≡ in_hand s.thread
      → to_record t.thread ≡ to_record s.thread
      → HasRecorded log.ended s.async.worker.last_result t.thread
      → IsTraced d t log
  aside-IsTraced t worker hand left newest = record {
    waiting = w.waiting ∙ ap (λ x. jobs_of log.left ++ to_list d x.queue) (sym worker);
    dropped = ap (λ x. x.queue.dropped) worker ∙ w.dropped;
    hands = w.hands ∙ ap (λ l. executed log.ended ++ l) (sym hand);
    answered = w.answered;
    recorded =
        ap (λ x. x.processed + to_record t.thread) worker
        ∙ ap (λ n. s.async.worker.processed + n) left
        ∙ w.recorded;
    newest = subst (λ x. HasRecorded log.ended x.last_result t.thread) (sym worker) newest;
  }

  pub recorded_with :
      {h : Thread} → s.thread ≡ h → HasRecorded log.ended s.async.worker.last_result h
  recorded_with e = subst (HasRecorded log.ended s.async.worker.last_result) e w.newest

  start_section_worker : (start_section s.async).1.worker ≡ s.async.worker
  unfolding start_section
  start_section_worker = elim (Bool-cases s.async.running) [ inl e ↦ rw e refl | inr e ↦ rw e refl ]

  pub finishes-IsTraced :
      (job : Job) (r : JobResult)
      → s.thread ≡ executing job
      → Answers job r
      → IsTraced d
          (record s { async = finish s.async; thread = reporting r })
          (record log { ended = log.ended ++ (job, r) ∷ [] })
  unfolding finish
  finishes-IsTraced job r t x = record {
    waiting = w.waiting;
    dropped = w.dropped;
    hands =
        w.hands
        ∙ ap (λ h. executed log.ended ++ in_hand h) t
        ∙ sym (executed-append log.ended ((job, r) ∷ []))
        ∙ sym (append-nil (executed (log.ended ++ (job, r) ∷ [])));
    answered = All-append (λ e. Answers e.0 e.1) log.ended ((job, r) ∷ []) w.answered (x, tt);
    recorded = omega (arith, w.recorded, ap to_record t, length-append log.ended ((job, r) ∷ []));
    newest = (log.ended, job, refl, recorded_with t);
  }

  pub reports-IsTraced :
      (r : JobResult)
      → s.thread ≡ reporting r
      → IsTraced d (record s { async = report s.async r; thread = looping }) log
  unfolding report record_result
  reports-IsTraced r t = record {
    waiting = w.waiting;
    dropped = w.dropped;
    hands = w.hands ∙ ap (λ h. executed log.ended ++ in_hand h) t;
    answered = w.answered;
    recorded = omega (arith, w.recorded, ap to_record t);
    newest =
        let (before, job, e, _) = recorded_with t in
        sym (ap newest_of e ∙ newest_of-append before job r);
  }

  starts_from_absent : s.main ≡ outside → (start_section s.async).0 ≡ true → s.thread ≡ absent
  unfolding start_section
  starts_from_absent m e =
      let stopped : s.async.running ≡ false = ground (arith, e) in idle_absent d s v m stopped

  pub starts-IsTraced :
      s.main ≡ outside
      → (start_section s.async).0 ≡ true
      → IsTraced d (record s { async = (start_section s.async).1; thread = looping }) log
  starts-IsTraced m e =
      let gone = sym (starts_from_absent m e) in
      aside-IsTraced (record s { async = (start_section s.async).1; thread = looping })
        start_section_worker (ap in_hand gone) (ap to_record gone)
        (recorded_with (starts_from_absent m e))

  pub start_fails-IsTraced :
      IsTraced d (record s { async = stop_end (start_section s.async).1 }) log
  unfolding stop_end
  start_fails-IsTraced =
      aside-IsTraced (record s { async = stop_end (start_section s.async).1 }) start_section_worker
        refl refl w.newest

  pub stop_ends-IsTraced :
      (s.thread ≡ absent) ⊎ (s.thread ≡ exited)
      → IsTraced d (record { async = stop_end s.async; thread = absent; main = outside }) log
  unfolding stop_end
  stop_ends-IsTraced (inl e) =
      aside-IsTraced (record { async = stop_end s.async; thread = absent; main = outside }) refl
        (ap in_hand (sym e)) (ap to_record (sym e)) (recorded_with e)
  stop_ends-IsTraced (inr e) =
      aside-IsTraced (record { async = stop_end s.async; thread = absent; main = outside }) refl
        (ap in_hand (sym e)) (ap to_record (sym e)) (recorded_with e)

  pub quits-IsTraced :
      (a : AsyncWorker)
      → s.thread ≡ looping
      → loop_section d s.async ≡ quit a
      → IsTraced d (record s { async = a; thread = exited }) log
  unfolding loop_section
  quits-IsTraced a h e =
      aside-IsTraced (record s { async = a; thread = exited }) (ground (arith, e))
        (ap in_hand (sym h)) (ap to_record (sym h)) (recorded_with h)
