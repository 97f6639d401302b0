-- ===== src/OutputQueue/Flush.antt =====
-- Flushing to a socket that takes what it likes.
use lo_ra_ham_daemon.Base.{
  Bool, List, Option-cases, [], ap, append_assoc, arith, drop, false, inl, inr, length,
  length-append, length-drop, length-take, ltb, nil_of_length, none, some, suc, take,
  take-append-drop, true, ℕ, ◌&&◌, ◌++◌, ◌+◌, ◌-◌, ◌<◌, ◌==◌, ◌||◌, ◌∷◌, ◌≡◌, ◌≢◌, ◌≤◌,
}
use lo_ra_ham_daemon.OutputQueue.{
  OutputQueue, SendResult, sent, interrupted, would_block, failed, Result, ok, err, Flushed,
  consume, flush_loop, flush_fd,
}
use lo_ra_ham_daemon.OutputQueue.Laws.{consume_lem}

-- send() takes at most what it is offered.
abbrev pub Honest : List SendResult → ℕ → Type 0
Honest [] n = Unit
Honest (sent k ∷ more) n = (k ≤ n) × Honest more (n - k)
Honest (_ ∷ more) n = Honest more n

-- The calls that are not interrupted.
abbrev pub answers : List SendResult → ℕ
answers [] = 0
answers (interrupted ∷ more) = answers more
answers (_ ∷ more) = suc (answers more)

abbrev pub never_blocks : List SendResult → Bool
never_blocks [] = true
never_blocks (would_block ∷ more) = false
never_blocks (_ ∷ more) = never_blocks more

-- With `n` bytes to send, a call fails or finds the connection broken before they are all sent, and
-- before a call that would block.
abbrev pub fails : List SendResult → ℕ → Bool
fails [] n = false
fails (sent k ∷ more) n = let rest = fails more (n - k) in ltb 0 n && (k == 0 || rest)
fails (interrupted ∷ more) n = let rest = fails more n in ltb 0 n && rest
fails (would_block ∷ more) n = false
fails (failed ∷ more) n = ltb 0 n

abbrev pub is_err : Result ℕ → Bool
is_err (ok n) = false
is_err (err x) = true

-- The bytes on the socket, then those that still wait, are those that were there before.
abbrev Keeps : List ℕ → Flushed → Type 0
Keeps all r = r.wire ++ r.queue.pending ≡ all

consumed_keeps :
    (q : OutputQueue) (k : ℕ) (wire : List ℕ)
    → (wire ++ take k q.pending) ++ (consume q k).1.pending ≡ wire ++ q.pending
consumed_keeps q k wire = rw (
  consume_lem q k,
  append_assoc wire (take k q.pending) (drop k q.pending),
  take-append-drop k q.pending,
)

module _ {r : Flushed} where
  flush_loop-Keeps :
      (script : List SendResult) (total : ℕ) (q : OutputQueue) (wire : List ℕ)
      → flush_loop script total q wire ≡ some r
      → Keeps (wire ++ q.pending) r
  unfolding flush_loop
  flush_loop-Keeps [] total q wire e = ground arith
  flush_loop-Keeps (sent n ∷ more) total q wire e = ground (
    arith,
    flush_loop-Keeps more (total + n) (consume q n).1 (wire ++ take n q.pending),
    consumed_keeps q n wire,
  )
  flush_loop-Keeps (interrupted ∷ more) total q wire e =
      ground (arith, flush_loop-Keeps more total q wire)
  flush_loop-Keeps (_ ∷ more) total q wire e = ground arith

  flush_loop-fails :
      (script : List SendResult) (total : ℕ) (q : OutputQueue) (wire : List ℕ)
      → flush_loop script total q wire ≡ some r
      → is_err r.result ≡ fails script (length q.pending)
  unfolding flush_loop
  flush_loop-fails [] total q wire e = ground arith
  flush_loop-fails (sent k ∷ more) total q wire e =
      let left : length (consume q k).1.pending ≡ length q.pending - k =
        rw (consume_lem q k) (length-drop k q.pending) in
      let rest = flush_loop-fails more (total + k) (consume q k).1 (wire ++ take k q.pending) in
      ground (arith, ap (fails more) left, rest)
  flush_loop-fails (interrupted ∷ more) total q wire e =
      ground (arith, flush_loop-fails more total q wire)
  flush_loop-fails (_ ∷ more) total q wire e = ground arith

  flush_loop-counts :
      (script : List SendResult) (total n : ℕ) (q : OutputQueue) (wire : List ℕ)
      → Honest script (length q.pending)
      → flush_loop script total q wire ≡ some r
      → r.result ≡ ok n
      → n + length wire ≡ total + length r.wire
  unfolding flush_loop
  flush_loop-counts [] total n q wire h e o = ground arith
  flush_loop-counts (sent k ∷ more) total n q wire h e o =
      let rest = drop k q.pending in
      let left : length (consume q k).1.pending ≡ length q.pending - k =
        rw (consume_lem q k) (length-drop k q.pending) in
      ground (
        arith,
        flush_loop-counts more (total + k) n (consume q k).1 (wire ++ take k q.pending)
            (rw left h.1),
        length-append wire (take k q.pending),
        length-take k q.pending,
      )
  flush_loop-counts (interrupted ∷ more) total n q wire h e o =
      ground (arith, flush_loop-counts more total n q wire h)
  flush_loop-counts (_ ∷ more) total n q wire h e o = ground arith

  flush_loop-drained :
      (script : List SendResult) (total n : ℕ) (q : OutputQueue) (wire : List ℕ)
      → never_blocks script ≡ true
      → flush_loop script total q wire ≡ some r
      → r.result ≡ ok n
      → length r.queue.pending ≡ 0
  unfolding flush_loop
  flush_loop-drained [] total n q wire b e o = ground arith
  flush_loop-drained (sent k ∷ more) total n q wire b e o =
      ground
        (arith, flush_loop-drained more (total + k) n (consume q k).1 (wire ++ take k q.pending))
  flush_loop-drained (interrupted ∷ more) total n q wire b e o =
      ground (arith, flush_loop-drained more total n q wire b)
  flush_loop-drained (_ ∷ more) total n q wire b e o = ground arith

-- Whatever the socket takes, send() taking no more than it is offered, a flush that returns
-- neither loses, repeats nor reorders a byte: what it has put on the socket and what still waits
-- are together the bytes that waited before. If it returns a number it is the number of bytes put
-- on the socket, and if no call would have blocked nothing is left.
pub flush_fd_lem :
    (script : List SendResult) (q : OutputQueue) (r : Flushed)
    → Honest script (length q.pending)
    → flush_fd script q ≡ some r
    → (r.wire ++ r.queue.pending ≡ q.pending)
      × ((n : ℕ)
          → r.result ≡ ok n
          → (n ≡ length r.wire) × (never_blocks script ≡ true → r.queue.pending ≡ []))
unfolding flush_fd
flush_fd_lem script q r h e = (
  flush_loop-Keeps script 0 q [] e,
  λ n o. (
    omega (arith, flush_loop-counts script 0 n q [] h e o),
    λ b. nil_of_length r.queue.pending (flush_loop-drained script 0 n q [] b e o),
  ),
)

-- The first part holds for any script.
pub flush_fd_keeps :
    (script : List SendResult) (q : OutputQueue) (r : Flushed)
    → flush_fd script q ≡ some r
    → r.wire ++ r.queue.pending ≡ q.pending
unfolding flush_fd
flush_fd_keeps script q r e = flush_loop-Keeps script 0 q [] e

-- A flush that returns fails exactly if a call does, as `fails` tells of the script.
pub flush_fd-fails :
    (script : List SendResult) (q : OutputQueue) (r : Flushed)
    → flush_fd script q ≡ some r
    → is_err r.result ≡ fails script (length q.pending)
unfolding flush_fd
flush_fd-fails script q r e = flush_loop-fails script 0 q [] e

flush_loop-ne-none :
    (script : List SendResult) (total : ℕ) (q : OutputQueue) (wire : List ℕ)
    → length q.pending < answers script
    → flush_loop script total q wire ≢ none
unfolding flush_loop
flush_loop-ne-none [] total q wire h = absurd (omega arith)
flush_loop-ne-none (sent k ∷ more) total q wire h =
    let left : length (consume q k).1.pending ≡ length q.pending - k =
      rw (consume_lem q k) (length-drop k q.pending) in
    ground
      (arith, left, flush_loop-ne-none more (total + k) (consume q k).1 (wire ++ take k q.pending))
flush_loop-ne-none (interrupted ∷ more) total q wire h =
    ground (arith, flush_loop-ne-none more total q wire h)
flush_loop-ne-none (_ ∷ more) total q wire h = ground arith

-- The flush returns: after as many calls of send() that are not interrupted as bytes wait, and one
-- more, its loop is over.
pub flush_fd_returns :
    (script : List SendResult) (q : OutputQueue)
    → length q.pending < answers script
    → (r : Flushed) × (flush_fd script q ≡ some r)
unfolding flush_fd
flush_fd_returns script q h = elim (Option-cases (flush_loop script 0 q [])) [
  | inl e ↦ absurd (flush_loop-ne-none script 0 q [] h e)
  | inr r ↦ r
]
