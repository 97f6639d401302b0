-- ===== src/DataTx.antt =====
-- loraham_daemon/data_tx.cpp, radio_tx_limit.cpp, daemon_tx_policy.h and the waiting in
-- daemon_data_tx_runtime.cpp: what a raw client writes is cut into packets for the radio, no more is
-- read than the job queue can hold, and without the queue the main thread listens before it sends.
-- The chunk handler acts on a state of its own; its flag is true where it returns 0. Probing the
-- channel is the environment.
pub mod Chunks
pub mod Budget
pub mod Listening
mod Tests
use lo_ra_ham_daemon.Base.{
  Bool, List, Option, drop, false, if◌then◌else◌, leb, length, ltb, none, not, some, suc, take,
  true, zero, ℕ, ◌%◌, ◌*◌, ◌+◌, ◌-◌, ◌/◌, ◌==◌, ◌^◌, ◌||◌,
}
use lo_ra_ham_daemon.TxJob.{TxMode, direct, managed}
use lo_ra_ham_daemon.TxExecutor.{Probe, unavailable, free, busy}
use lo_ra_ham_daemon.TxQueue as Queue

abbrev pub max_chunk_size : ℕ
max_chunk_size = 255

unfoldable pub chunk_size : ℕ → ℕ → ℕ
chunk_size remaining limit =
    let bound = if limit == 0 || ltb max_chunk_size limit then max_chunk_size else limit in
    if ltb bound remaining then bound else remaining

module _ {S : Type 0} (handler : S → List ℕ → ℕ → S × Bool) (limit : ℕ) where
  -- `rest` is what is left of the buffer behind the first `sent` bytes.
  unfoldable pub chunk_loop : ℕ → ℕ → List ℕ → S → ℕ × S
  chunk_loop zero sent rest s = (sent, s)
  chunk_loop (suc fuel) sent rest s =
      let n = chunk_size (length rest) limit in
      let (s', accepted) = handler s (take n rest) sent in
      elim (ltb 0 (length rest)) [
        | false ↦ (sent, s)
        | true ↦ elim (n == 0) [
          | true ↦ (sent, s)
          | false ↦ elim accepted [
            | false ↦ (sent, s')
            | true ↦ chunk_loop fuel (sent + n) (drop n rest) s'
          ]
        ]
      ]

  -- Each round sends at least one byte.
  unfoldable pub for_each_chunk : List ℕ → S → ℕ × S
  for_each_chunk buf s = chunk_loop (length buf) 0 buf s

pub data ChipFamily : Type 0 where
  sx127x sx1262 : ChipFamily

pub data RadioMode : Type 0 where
  lora fsk : RadioMode

-- `radio` is none where the controller has no driver.
unfoldable pub payload_limit : Option (ChipFamily × RadioMode) → ℕ
payload_limit (some (sx127x, fsk)) = 63
payload_limit _ = 255

-- none is (size_t)-1: nothing bounds the read.
unfoldable pub queue_capacity_bytes : Bool → ℕ → Option (ChipFamily × RadioMode) → Option ℕ
unfolding payload_limit
queue_capacity_bytes queue_active pending radio =
    if not queue_active
    then none
    else if leb Queue.capacity pending
    then some 0
    else some ((Queue.capacity - pending) * payload_limit radio)

unfoldable pub ticks_for_ms : ℕ → ℕ → ℕ
ticks_for_ms timeout_ms interval_ms =
    if interval_ms == 0 then 0 else (timeout_ms + interval_ms - 1) % 2 ^ 32 / interval_ms

pub data Decision : Type 0 where
  go block timeout_send error : Decision

-- What one round finds: the probe's answer, then whether a packet of our own waits to be read.
module _ {W : Type 0} (probe : W → W × Probe × Bool) (sleep : W → W) (required : ℕ)
    (send_after_timeout : Bool) where
  -- `left` is max_ticks - cad_wait.
  unfoldable pub wait_loop : ℕ → ℕ → W → W × Decision
  wait_loop zero free_ticks w = (w, if send_after_timeout then timeout_send else block)
  wait_loop (suc left) free_ticks w =
      let (w', status, received) = probe w in
      let paused = if ltb 0 left then sleep w' else w' in
      elim status [
        | unavailable ↦ (w', error)
        | free ↦ elim received [
          | true ↦ (w', block)
          | false ↦ elim (leb required (free_ticks + 1)) [
            | true ↦ (w', go)
            | false ↦ wait_loop left (free_ticks + 1) paused
          ]
        ]
        | busy ↦ elim received [ true ↦ (w', block) | false ↦ wait_loop left 0 paused ]
      ]

-- `mode` is none without a controller. The sleep function is the identity for an interval of 0.
unfoldable pub wait_channel_free_with_limits_ex :
    {W : Type 0}
    → (W → W × Probe × Bool)
    → (W → W)
    → Option RadioMode
    → TxMode
    → ℕ
    → ℕ
    → Bool
    → W
    → W × Decision
wait_channel_free_with_limits_ex probe sleep (some lora) managed max_ticks stable_idle_ticks
      send_after w =
    wait_loop probe sleep (if stable_idle_ticks == 0 then 1 else stable_idle_ticks) send_after
      max_ticks 0 w
wait_channel_free_with_limits_ex probe sleep _ _ max_ticks stable_idle_ticks send_after w = (w, go)
