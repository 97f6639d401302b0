-- ===== src/OutputQueue/Laws.antt =====
-- Appending and consuming, as operations on a sequence of bytes.
use lo_ra_ham_daemon.Base.{
  List, Option, [], append-nil, arith, drop, drop_all, if◌then◌else◌, leb, length, length-append,
  length-take, min, none, some, suc, take, take_all, ℕ, ◌++◌, ◌+◌, ◌∷◌, ◌≡◌, ◌≤◌,
}
use lo_ra_ham_daemon.OutputQueue.{
  OutputQueue, capacity, invalid, no_buffers, ok, err, append, consume,
}

-- No more bytes than the array holds.
abbrev pub Fits : OutputQueue → Type 0
Fits q = length q.pending ≤ capacity

-- A block of bytes is taken whole, at the end, exactly if it fits into what is left of the
-- capacity; otherwise the call fails with no buffers and the queue stays. An empty append
-- succeeds, and a NULL buffer is invalid.
pub append_cases :
    (q : OutputQueue) (bytes : List ℕ)
    → Fits q
    → (append q (some bytes) (length bytes) ≡ (
        if leb (length q.pending + length bytes) capacity
        then (ok tt, record { pending = q.pending ++ bytes })
        else (err no_buffers, q)))
      × ((n : ℕ) → append q none (suc n) ≡ (err invalid, q))
unfolding append
append_cases q [] f = (ground (arith, append-nil q.pending), λ n. ground arith)
append_cases q (x ∷ bytes) f =
    (ground (arith, take_all (length (x ∷ bytes)) (x ∷ bytes)), λ n. ground arith)

-- No append lets the queue outgrow its array.
pub append-Fits :
    (q : OutputQueue) (buf : Option (List ℕ)) (len : ℕ) → Fits q → Fits (append q buf len).1
unfolding append
append-Fits q none len f = ground arith
append-Fits q (some bytes) len f =
    ground (arith, length-append q.pending (take len bytes), length-take len bytes)

-- Consuming takes from the front what is there, at most, and keeps the rest in order.
pub consume_lem :
    (q : OutputQueue) (len : ℕ)
    → consume q len ≡ (min len (length q.pending), record { pending = drop len q.pending })
unfolding consume
consume_lem q len = ground (arith, drop_all len q.pending)
