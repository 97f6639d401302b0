-- ===== src/TxStatus.antt =====
-- The transmission flag with its generation (loraham_daemon/daemon_tx.cpp), and the loop of
-- daemon_monitoring.cpp that tells clients of each change. A generation is a uint32_t that counts the
-- changes of the flag, each in a second atomic operation behind the one that changes it, so that it may
-- lag behind the flag. What is done for a change is `announce`.
pub mod Reported
mod Tests
use lo_ra_ham_daemon.Base.{
  Bool, List, Option, [], false, if◌then◌else◌, none, not, some, suc, true, zero, ℕ, ◌%◌, ◌+◌, ◌-◌,
  ◌==◌, ◌^◌, ◌∷◌,
}
use lo_ra_ham_daemon.ClientSlot.{ClientSlot, has_clients, broadcast_bytes_queued}
use lo_ra_ham_daemon.OutputQueue.{SendResult}

pub record Status : Type 0 where
  pub tx_busy : Bool
  pub generation : ℕ
  pub broadcast_generation : ℕ

unfoldable pub next_generation : ℕ → ℕ
next_generation generation = (generation + 1) % 2 ^ 32

-- tx_busy.exchange(true); the flag tells whether the radio was free.
unfoldable pub exchange : Status → Bool × Status
exchange s = (not s.tx_busy, record s { tx_busy = true })

-- tx_busy.store(false)
unfoldable pub store : Status → Status
store s = record s { tx_busy = false }

-- tx_status_generation.fetch_add(1)
unfoldable pub count : Status → Status
unfolding next_generation
count s = record s { generation = next_generation s.generation }

-- Two atomic operations, without another thread's between them; Reported has them as steps of their own.
unfoldable pub acquire : Status → Bool × Status
unfolding exchange count
acquire s =
    let (was_free, taken) = exchange s in if was_free then (true, count taken) else (false, taken)

unfoldable pub release : Status → Status
unfolding store count
release s = count (store s)

unfoldable pub next_busy : ℕ → Bool
next_busy observed = observed % 2 == 0

abbrev pub text : Bool → List ℕ
text true = 84 ∷ 88 ∷ 61 ∷ 49 ∷ 10 ∷ []
text false = 84 ∷ 88 ∷ 61 ∷ 48 ∷ 10 ∷ []

-- What is done for a change with the clients of the configuration socket, of whose sockets the scripts
-- tell; none is a flush that does not end.
unfoldable pub announce :
    (Bool → ℕ → List SendResult) → Bool → Option (List ClientSlot) → Option (List ClientSlot)
announce scripts busy none = none
announce scripts busy (some slots) =
    if has_clients slots
    then elim (broadcast_bytes_queued (scripts busy) (text busy) slots) [
      | none ↦ none
      | some (wires, slots') ↦ some slots'
    ]
    else some slots

module _ {S : Type 0} (announces : Bool → S → S) where
  -- The broadcast generation and the clients, behind at most `fuel` rounds.
  unfoldable pub status_loop : ℕ → ℕ → ℕ → S → ℕ × S
  unfolding next_generation
  status_loop zero observed current clients = (observed, clients)
  status_loop (suc fuel) observed current clients =
      let rest =
        status_loop fuel (next_generation observed) current
          (announces (next_busy observed) clients) in
      if observed == current then (observed, clients) else rest

  unfoldable pub process_tx_status : Status → S → Status × S
  unfolding status_loop
  process_tx_status s clients =
      let told =
        status_loop ((s.generation + 2 ^ 32 - s.broadcast_generation) % 2 ^ 32)
          s.broadcast_generation s.generation clients in
      (record s { broadcast_generation = told.0 }, told.1)
