-- ===== src/OutputQueue.antt =====
-- loraham_daemon/client_output_queue.cpp: the bytes that wait to be sent to one client.
-- `pending` is data[0 .. len), so `len` is its length; the bytes behind it are never read.
-- send() is the environment: the list of what its calls return, in order.
pub mod Laws
pub mod Flush
mod Tests
use lo_ra_ham_daemon.Base.{
  List, Option, [], drop, if◌then◌else◌, inl, inr, length, ltb, none, refl, some, take, ℕ, ◌++◌,
  ◌+◌, ◌-◌, ◌==◌, ◌∷◌, ◌≡◌, ◌⊎◌,
}

abbrev pub capacity : ℕ
capacity = 65536

pub record OutputQueue : Type 0 where
  pub pending : List ℕ

abbrev pub init : OutputQueue
init = record { pending = [] }

-- What send() does with the bytes offered: it takes the first n (n > 0), reports end of file by 0,
-- or fails.
pub data SendResult : Type 0 where
  sent : ℕ → SendResult
  interrupted would_block failed : SendResult

-- The errno that a failing call leaves.
pub data Error : Type 0 where
  invalid no_buffers broken_pipe other : Error

pub data Result {ℓ} (A : Type ℓ) : Type ℓ where
  ok : A → Result A
  err : Error → Result A

pub Result-cases {ℓ} :
    {A : Type ℓ} (r : Result A) → ((a : A) × (r ≡ ok a)) ⊎ ((x : Error) × (r ≡ err x))
Result-cases (ok a) = inl (a, refl)
Result-cases (err x) = inr (x, refl)

-- `buf` is none for a NULL pointer; the result is the return value and the queue.
unfoldable pub append : OutputQueue → Option (List ℕ) → ℕ → Result (Unit {0}) × OutputQueue
append q buf len = if len == 0 then (ok tt, q) else elim buf [
  | none ↦ (err invalid, q)
  | some bytes ↦
      if ltb (capacity - length q.pending) len
      then (err no_buffers, q)
      else (ok tt, record { pending = q.pending ++ take len bytes })
]

unfoldable pub consume : OutputQueue → ℕ → ℕ × OutputQueue
consume q len =
    let used = if ltb len (length q.pending) then len else length q.pending in
    if len == 0
    then (0, q)
    else if used == length q.pending
    then (used, init)
    else if ltb 0 used
    then (used, record { pending = drop used q.pending })
    else (used, q)

-- The return value, none for -1; `wire` is what the calls of send() have put on the socket. The
-- script ends when the environment answers no further call: the loop is then still running.
pub record Flushed : Type 0 where
  pub result : Result ℕ
  pub queue : OutputQueue
  pub wire : List ℕ

unfoldable pub flush_loop : List SendResult → ℕ → OutputQueue → List ℕ → Option Flushed
flush_loop [] total q wire =
    if ltb 0 (length q.pending)
    then none
    else some (record { result = ok total; queue = q; wire = wire })
flush_loop (sent n ∷ more) total q wire =
    let next = flush_loop more (total + n) (consume q n).1 (wire ++ take n q.pending) in
    if ltb 0 (length q.pending)
    then (if ltb 0 n
        then next
        else some (record { result = err broken_pipe; queue = q; wire = wire }))
    else some (record { result = ok total; queue = q; wire = wire })
flush_loop (interrupted ∷ more) total q wire =
    let next = flush_loop more total q wire in
    if ltb 0 (length q.pending)
    then next
    else some (record { result = ok total; queue = q; wire = wire })
flush_loop (would_block ∷ more) total q wire =
    some (record { result = ok total; queue = q; wire = wire })
flush_loop (failed ∷ more) total q wire =
    if ltb 0 (length q.pending)
    then some (record { result = err other; queue = q; wire = wire })
    else some (record { result = ok total; queue = q; wire = wire })

unfoldable pub flush_fd : List SendResult → OutputQueue → Option Flushed
unfolding flush_loop
flush_fd script q = flush_loop script 0 q []
