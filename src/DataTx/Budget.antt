-- ===== src/DataTx/Budget.antt =====
-- What one read may take never overflows the job queue.
use lo_ra_ham_daemon.Base.{
  Bool, List, Option, [], ap, arith, drop, length, length-drop, min, none, refl, some, suc, take,
  true, zero, ℕ, ◌*◌, ◌+◌, ◌-◌, ◌<◌, ◌∙◌, ◌∷◌, ◌≡◌, ◌≤◌,
}
use native.Mathlib.Decide.{dec_lt}
use native.Mathlib.Nat.{suc-mul}
use lo_ra_ham_daemon.TxJob.{Job}
use lo_ra_ham_daemon.TxQueue.Fifo.{IsRing}
use lo_ra_ham_daemon.TxWorker.{TxWorker, submit}
use lo_ra_ham_daemon.TxWorker.Counts.{submit_cases}
use lo_ra_ham_daemon.DataTx.{
  chunk_size, chunk_loop, for_each_chunk, queue_capacity_bytes, ChipFamily, sx127x, sx1262,
  RadioMode, lora, fsk, payload_limit,
}
use lo_ra_ham_daemon.DataTx.Chunks.{chunk_size_lem, loop_passes}

-- The handler that queues a job for each chunk; `job_of` is how a job is made of it.
unfoldable pub submit_chunk : (List ℕ → ℕ → Job) → TxWorker → List ℕ → ℕ → TxWorker × Bool
submit_chunk job_of w chunk offset =
    let (accepted, w') = submit w (job_of chunk offset) in (w', accepted)

limit_cases :
    (radio : Option (ChipFamily × RadioMode))
    → (0 < payload_limit radio) × (payload_limit radio ≤ 255)
unfolding payload_limit
limit_cases none = omega arith
limit_cases (some (sx127x, lora)) = omega arith
limit_cases (some (sx127x, fsk)) = omega arith
limit_cases (some (sx1262, _)) = omega arith

module _ (d : Job) (job_of : List ℕ → ℕ → Job) (limit : ℕ) (some_limit : 0 < limit)
    (small : limit ≤ 255) where
  room_of : (k n : ℕ) → n ≤ k * limit → 0 < n → (0 < k) × (n ≤ min limit n + (k - 1) * limit)
  room_of zero n h some_bytes = absurd (omega arith)
  room_of (suc k) n h some_bytes =
      let one_more : suc k * limit ≡ limit + k * limit = suc-mul k limit ∙ omega arith in
      let back : suc k - 1 ≡ k = omega arith in (omega arith, rw back (omega (arith, one_more)))

  -- A byte that may be read has a free entry waiting for it, and those behind it have theirs.
  room_for_one :
      (count n : ℕ)
      → n ≤ (8 - count) * limit
      → 0 < n
      → (count < 8) × (n ≤ min limit n + (8 - (count + 1)) * limit)
  room_for_one count n h some_bytes =
      let (free_entry, rest) = room_of (8 - count) n h some_bytes in
      let same : 8 - (count + 1) ≡ 8 - count - 1 = omega arith in
      (omega (arith, free_entry), rw same rest)

  chunk_loop_fits :
      (fuel sent : ℕ) (rest : List ℕ) (w : TxWorker)
      → length rest ≤ fuel
      → IsRing d w.queue
      → length rest ≤ (8 - w.queue.count) * limit
      → let (n, w') = chunk_loop (submit_chunk job_of) limit fuel sent rest w in
        (n ≡ sent + length rest) × IsRing d w'.queue × (w'.rejected ≡ w.rejected)
  unfolding chunk_loop submit_chunk
  chunk_loop_fits zero sent rest w h v room = (omega arith, v, refl)
  chunk_loop_fits (suc fuel) sent [] w h v room = (omega arith, v, refl)
  chunk_loop_fits (suc fuel) sent (x ∷ xs) w h v room =
      let rest = x ∷ xs in
      let n = chunk_size (length rest) limit in
      let size : n ≡ min limit (length rest) =
        chunk_size_lem (submit_chunk job_of) limit (length rest) ∙ ground arith in
      let job = job_of (take n rest) sent in
      let (m, more) = room_for_one w.queue.count (length rest) room (omega arith) in
      let (taken, ring, _, count, _, rejected, _, _) = submit_cases d w job v in
      let w' = (submit w job).1 in
      let got : (submit w job).0 ≡ true = ground arith in
      let e : submit_chunk job_of w (take n rest) sent ≡ (w', true) = ap (λ b. (w', b)) got in
      let counted : w'.queue.count ≡ w.queue.count + 1 = ground (arith, count, got) in
      let kept : w'.rejected ≡ w.rejected = ground (arith, rejected, got) in
      let left : 8 - w'.queue.count ≡ 8 - (w.queue.count + 1) = omega (arith, counted) in
      let less : length (drop n rest) ≡ length rest - n = length-drop n rest in
      let (a, b, c) =
        chunk_loop_fits fuel (sent + n) (drop n rest) w' (omega (arith, less, size)) ring
          (rw left (omega (arith, less, size, more))) in
      rw (loop_passes (submit_chunk job_of) limit fuel sent rest w w' (omega arith) e)
        (omega (arith, a, less, size), b, c ∙ kept)

-- While the queue is in use and in order, a read takes at most the capacity computed for the
-- number of jobs that wait. Every byte of such a read is queued, if its chunks are submitted to
-- that queue one after the other: no chunk is refused, whatever that number, the radio and its
-- mode.
pub read_fits :
    (d : Job) (job_of : List ℕ → ℕ → Job) (radio : Option (ChipFamily × RadioMode)) (buf : List ℕ)
    (w : TxWorker) (capacity : ℕ)
    → IsRing d w.queue
    → queue_capacity_bytes true w.queue.count radio ≡ some capacity
    → length buf ≤ capacity
    → let (sent, w') = for_each_chunk (submit_chunk job_of) (payload_limit radio) buf w in
      (sent ≡ length buf) × IsRing d w'.queue × (w'.rejected ≡ w.rejected)
unfolding for_each_chunk queue_capacity_bytes
read_fits d job_of radio buf w capacity v e h =
    let (positive, small) = limit_cases radio in
    let room : length buf ≤ (8 - w.queue.count) * payload_limit radio =
      elim (dec_lt w.queue.count 8) [
        | no full ↦ let nothing : capacity ≡ 0 = ground arith in omega (arith, nothing)
        | yes free_entry ↦
            let c : capacity ≡ (8 - w.queue.count) * payload_limit radio = ground arith in
            omega (arith, c)
      ] in
    let (sent, ring, rejected) =
      chunk_loop_fits d job_of (payload_limit radio) positive small (length buf) 0 buf w
        (omega arith) v room in
    (omega (arith, sent), ring, rejected)
