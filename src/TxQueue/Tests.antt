-- ===== src/TxQueue/Tests.antt =====
-- Queues of numbers at concrete calls.
use lo_ra_ham_daemon.Base.{List, [], arith, ℕ, ◌∷◌, ◌≡◌}
use lo_ra_ham_daemon.Ring.{entries}
use lo_ra_ham_daemon.TxQueue.{TxQueue, drain}
use lo_ra_ham_daemon.TxQueue.Fifo.{IsRing, to_list}
use lo_ra_ham_daemon.TxQueue.Drain.{drain_lem}

-- Two jobs that lie across the end of the array.
abbrev wrapped : TxQueue ℕ
wrapped = record {
  jobs = 6 ∷ 0 ∷ 0 ∷ 0 ∷ 0 ∷ 0 ∷ 0 ∷ 5 ∷ [];
  head = 7;
  tail = 1;
  count = 2;
  dropped = 0;
}

wrapped-IsRing : IsRing 0 wrapped
wrapped-IsRing = omega arith

drain_lem_example :
    let r = drain {S = List ℕ} (λ s n. n ∷ s) 0 1 wrapped [] in
    (r.0 ≡ 1) × IsRing 0 r.1 × (to_list 0 r.1 ≡ 6 ∷ []) × (r.2 ≡ 5 ∷ [])
unfolding entries
drain_lem_example = drain_lem {S = List ℕ} (λ s n. n ∷ s) 0 1 wrapped [] wrapped-IsRing
