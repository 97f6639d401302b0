-- ===== src/Async/History/Queue.antt =====
-- The steps that touch the queue of jobs.
use lo_ra_ham_daemon.Base.{
  Bool, Bool-cases, Option-cases, [], ap, append-nil, append_assoc, arith, if◌then◌else◌, inl, inr,
  length, length-append, refl, sym, ◌++◌, ◌+◌, ◌∙◌, ◌∷◌, ◌≡◌,
}
use mathlib.Core.Path.{subst}
use lo_ra_ham_daemon.TxJob.{Job}
use lo_ra_ham_daemon.TxQueue.{pop, discard_all}
use lo_ra_ham_daemon.TxQueue as Jobs
use lo_ra_ham_daemon.TxQueue.Fifo.{to_list, pop_cases, discard_all_lem}
use lo_ra_ham_daemon.TxWorker.Counts.{submit_cases}
use lo_ra_ham_daemon.Async.{
  AsyncWorker, take, loop_section, stop_section, submit, looping, executing, stopping, System,
}
use lo_ra_ham_daemon.Async.Accounting.{Inv}
use lo_ra_ham_daemon.Ring.{length-entries}
use lo_ra_ham_daemon.TxWorker.{TxWorker}
use lo_ra_ham_daemon.TxWorker as Worker
use lo_ra_ham_daemon.TxQueue.{push}
use lo_ra_ham_daemon.Async.History.{
  HasRecorded, handed, discarded, Log, jobs_of, with_fate, executed, all_discarded, in_hand,
  to_record, IsTraced,
}
use lo_ra_ham_daemon.Async.History.Lists.{
  jobs_of-append, with_fate-append, jobs_of-all_discarded, handed-all_discarded,
  discarded-all_discarded,
}

length-to_list : (d : Job) (q : Jobs.TxQueue Job) → length (to_list d q) ≡ q.count
length-to_list d q = length-entries d 8 q.jobs q.head q.count

submit_last : (w : TxWorker) (job : Job) → (Worker.submit w job).1.last_result ≡ w.last_result
unfolding Worker.submit
submit_last w job = elim (Option-cases (push w.queue job)) [
  | inl e ↦ ground (arith, e)
  | inr (q, e) ↦ ground (arith, e)
]

module _ {d : Job} {s : System} {log : Log} (v : Inv d s) (w : IsTraced d s log) where
  submit_facts :
      (job : Job)
      → let r = submit s.async job in
        (to_list d r.1.worker.queue ≡ (
          if r.0
          then to_list d s.async.worker.queue ++ job ∷ []
          else to_list d s.async.worker.queue))
        × (r.1.worker.queue.dropped ≡ s.async.worker.queue.dropped)
        × (r.1.worker.processed ≡ s.async.worker.processed)
        × (r.1.worker.last_result ≡ s.async.worker.last_result)
  unfolding submit
  submit_facts job =
      let (_, _, waits, _, _, _, processed, drops) = submit_cases d s.async.worker job v.ring in
      elim (Bool-cases s.async.stop_requested) [
        | inl e ↦ rw e (refl, refl, refl, refl)
        | inr e ↦ rw e (waits, drops, processed, submit_last s.async.worker job)
      ]

  pub submits-IsTraced :
      (job : Job)
      → IsTraced d
          (record s { async = (submit s.async job).1 })
          (if (submit s.async job).0
            then record log { accepted = log.accepted ++ job ∷ [] }
            else log)
  submits-IsTraced job =
      let (waits, drops, processed, last) = submit_facts job in
      let after : System = record s { async = (submit s.async job).1 } in
      let longer : Log = record log { accepted = log.accepted ++ job ∷ [] } in
      let goal : Bool → Type 0 = λ b. IsTraced d after (if b then longer else log) in
      let rest = to_list d s.async.worker.queue in
      elim (Bool-cases (submit s.async job).0) [
        | inl e ↦ subst goal (sym e) (record {
          waiting =
              ap (λ l. l ++ job ∷ []) w.waiting
              ∙ append_assoc (jobs_of log.left) rest (job ∷ [])
              ∙ ap (λ l. jobs_of log.left ++ l)
                  (sym (waits ∙ ap (λ b. if b then rest ++ job ∷ [] else rest) e));
          dropped = drops ∙ w.dropped;
          hands = w.hands;
          answered = w.answered;
          recorded = ap (λ n. n + to_record s.thread) processed ∙ w.recorded;
          newest = subst (λ x. HasRecorded log.ended x s.thread) (sym last) w.newest;
        })
        | inr e ↦ subst goal (sym e) (record {
          waiting =
              w.waiting
              ∙ ap (λ l. jobs_of log.left ++ l)
                  (sym (waits ∙ ap (λ b. if b then rest ++ job ∷ [] else rest) e));
          dropped = drops ∙ w.dropped;
          hands = w.hands;
          answered = w.answered;
          recorded = ap (λ n. n + to_record s.thread) processed ∙ w.recorded;
          newest = subst (λ x. HasRecorded log.ended x s.thread) (sym last) w.newest;
        })
      ]

  pub stop_begins-IsTraced :
      IsTraced d
        (record s { async = stop_section d s.async; main = stopping })
        (record log { left = log.left ++ all_discarded (to_list d s.async.worker.queue) })
  unfolding stop_section
  stop_begins-IsTraced =
      let waits = to_list d s.async.worker.queue in
      let (_, none_left, _, _, drops) = discard_all_lem d s.async.worker.queue in
      record {
        waiting =
            w.waiting
            ∙ ap (λ l. jobs_of log.left ++ l) (sym (jobs_of-all_discarded waits))
            ∙ sym (jobs_of-append log.left (all_discarded waits))
            ∙ sym (append-nil (jobs_of (log.left ++ all_discarded waits)))
            ∙ ap (λ l. jobs_of (log.left ++ all_discarded waits) ++ l) (sym none_left);
        dropped = omega (
          arith,
          drops,
          w.dropped,
          length-to_list d s.async.worker.queue,
          ap length (with_fate-append discarded log.left (all_discarded waits)),
          length-append (with_fate discarded log.left) (with_fate discarded (all_discarded waits)),
          ap length (discarded-all_discarded waits),
        );
        hands =
            with_fate-append handed log.left (all_discarded waits)
            ∙ ap (λ l. with_fate handed log.left ++ l) (handed-all_discarded waits)
            ∙ append-nil (with_fate handed log.left)
            ∙ w.hands;
        answered = w.answered;
        recorded = w.recorded;
        newest = w.newest;
      }

  loop_section_takes :
      (job : Job) (a : AsyncWorker)
      → loop_section d s.async ≡ take job a
      → (to_list d s.async.worker.queue ≡ job ∷ to_list d a.worker.queue)
        × (a.worker.queue.dropped ≡ s.async.worker.queue.dropped)
        × (a.worker.processed ≡ s.async.worker.processed)
        × (a.worker.last_result ≡ s.async.worker.last_result)
  unfolding loop_section
  loop_section_takes job a e = elim (pop_cases d s.async.worker.queue v.ring) [
    | inl (_, empty, none_left) ↦ absurd (ground (arith, e, empty, none_left))
    | inr (first, q, pops, _, waits, more, drops) ↦
        let same : (first ≡ job) × (q ≡ a.worker.queue) =
          (ground (arith, e, pops, more), ground (arith, e, pops, more)) in
        (
          waits ∙ ap (λ p. p ∷ to_list d q) same.0 ∙ ap (λ x. job ∷ to_list d x) same.1,
          ap (λ x. x.dropped) (sym same.1) ∙ drops,
          ground (arith, e, pops, more),
          ground (arith, e, pops, more),
        )
  ]

  pub takes-IsTraced :
      (job : Job) (a : AsyncWorker)
      → s.thread ≡ looping
      → loop_section d s.async ≡ take job a
      → IsTraced d
          (record s { async = a; thread = executing job })
          (record log { left = log.left ++ (handed, job) ∷ [] })
  takes-IsTraced job a t e =
      let (waits, drops, processed, last) = loop_section_takes job a e in
      let rest = to_list d a.worker.queue in
      record {
        waiting =
            w.waiting
            ∙ ap (λ l. jobs_of log.left ++ l) waits
            ∙ sym (append_assoc (jobs_of log.left) (job ∷ []) rest)
            ∙ ap (λ l. l ++ rest) (sym (jobs_of-append log.left ((handed, job) ∷ [])));
        dropped =
            drops
            ∙ w.dropped
            ∙ ap length (
                sym (append-nil (with_fate discarded log.left))
                ∙ sym (with_fate-append discarded log.left ((handed, job) ∷ [])));
        hands =
            with_fate-append handed log.left ((handed, job) ∷ [])
            ∙ ap (λ l. l ++ job ∷ [])
                (w.hands
                  ∙ ap (λ h. executed log.ended ++ in_hand h) t
                  ∙ append-nil (executed log.ended));
        answered = w.answered;
        recorded =
            ap (λ n. n + 0) processed
            ∙ ap (λ h. s.async.worker.processed + to_record h) (sym t)
            ∙ w.recorded;
        newest = last ∙ subst (HasRecorded log.ended s.async.worker.last_result) t w.newest;
      }
