-- ===== src/TxWorker/Counts.antt =====
-- The counters of the worker account for every job.
use lo_ra_ham_daemon.Base.{[], arith, if◌then◌else◌, inl, inr, ltb, refl, ◌++◌, ◌+◌, ◌∷◌, ◌≡◌}
use lo_ra_ham_daemon.TxJob.{Job}
use lo_ra_ham_daemon.TxQueue.Fifo.{IsRing, to_list, push_cases}
use lo_ra_ham_daemon.TxWorker.{TxWorker, submit}

-- With its queue in order, a submission is accepted exactly while fewer than eight jobs wait; it
-- is then counted and goes behind them. A refused one is counted too, and throws no waiting job
-- away.
pub submit_cases :
    (d : Job) (w : TxWorker) (job : Job)
    → IsRing d w.queue
    → let (accepted, w') = submit w job in
      (accepted ≡ ltb w.queue.count 8)
      × IsRing d w'.queue
      × (to_list d w'.queue
          ≡ (if accepted then to_list d w.queue ++ job ∷ [] else to_list d w.queue))
      × (w'.queue.count ≡ (if accepted then w.queue.count + 1 else w.queue.count))
      × (w'.accepted ≡ (if accepted then w.accepted + 1 else w.accepted))
      × (w'.rejected ≡ (if accepted then w.rejected else w.rejected + 1))
      × (w'.processed ≡ w.processed)
      × (w'.queue.dropped ≡ w.queue.dropped)
unfolding submit
submit_cases d w job v = elim (push_cases d w.queue job v) [
  | inl (full, e) ↦ rw (e, submit) (ground arith, v, refl, refl, refl, refl, refl, refl)
  | inr (q', e, v', l, n, k) ↦ rw (e, submit) (ground arith, v', l, n, refl, refl, refl, k)
]
