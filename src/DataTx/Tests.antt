-- ===== src/DataTx/Tests.antt =====
-- Concrete reads and channels.
use lo_ra_ham_daemon.Base.{Bool, List, [], arith, false, ltb, refl, replicate, some, ℕ, ◌∷◌, ◌≡◌}
use lo_ra_ham_daemon.TxJob.{Job, managed, direct, job_init}
use lo_ra_ham_daemon.TxExecutor.{Probe, busy, free}
use lo_ra_ham_daemon.TxQueue as Queue
use lo_ra_ham_daemon.TxQueue.Fifo.{IsRing, init-IsRing}
use lo_ra_ham_daemon.TxWorker.{TxWorker}
use lo_ra_ham_daemon.TxWorker as Worker
use lo_ra_ham_daemon.DataTx.{
  for_each_chunk, payload_limit, queue_capacity_bytes, sx127x, fsk, lora,
  wait_channel_free_with_limits_ex,
}
use lo_ra_ham_daemon.DataTx.Chunks.{Chunked, for_each_chunk-Chunked}
use lo_ra_ham_daemon.DataTx.Budget.{submit_chunk, read_fits}
use lo_ra_ham_daemon.DataTx.Listening.{Heard, listen, Decided, wait_channel_free-Decided}

abbrev a_job : Job
unfolding job_init
a_job = job_init 433 direct 7

-- Refuses the chunk behind the first two bytes.
abbrev picky : List (List ℕ) → List ℕ → ℕ → List (List ℕ) × Bool
picky seen chunk offset = (chunk ∷ seen, ltb offset 2)

for_each_chunk-Chunked_example :
    Chunked picky 2 0
      (1 ∷ 2 ∷ 3 ∷ 4 ∷ 5 ∷ [])
      []
      (for_each_chunk picky 2 (1 ∷ 2 ∷ 3 ∷ 4 ∷ 5 ∷ []) [])
for_each_chunk-Chunked_example = for_each_chunk-Chunked picky 2 (1 ∷ 2 ∷ 3 ∷ 4 ∷ 5 ∷ []) []

-- An FSK radio takes 63 bytes at a time; 504 bytes may be read for the empty queue.
read_fits_example :
    let (sent, w) =
      for_each_chunk
        (submit_chunk (λ _ _. a_job))
        (payload_limit (some (sx127x, fsk)))
        (replicate 100 65)
        (Worker.init a_job) in
    (sent ≡ 100) × IsRing a_job w.queue × (w.rejected ≡ 0)
unfolding Worker.init Queue.init queue_capacity_bytes payload_limit
read_fits_example =
    read_fits a_job (λ _ _. a_job) (some (sx127x, fsk)) (replicate 100 65) (Worker.init a_job) 504
      (init-IsRing a_job) refl (omega arith)

abbrev busy_first : Heard → Probe × Bool
busy_first [] = (busy, false)
busy_first (_ ∷ _) = (free, false)

wait_channel_free-Decided_example :
    Decided busy_first 2 false 5 (
      wait_channel_free_with_limits_ex
        (listen busy_first)
        (λ w. w)
        (some lora)
        managed
        5
        2
        false
        [])
wait_channel_free-Decided_example = wait_channel_free-Decided busy_first 5 2 false
