-- ===== src/TxExecutor.antt =====
-- loraham_daemon/daemon_tx_executor.cpp: a job is sent, at once or after listening for a free
-- channel. The sender, the probe and the sleep are the environment: functions on a world `W`,
-- any of which may be NULL (none). The sender takes the job for its payload and its band. Counters
-- are uint32_t and wrap.
pub mod Listen
pub mod Answers
mod Tests
use lo_ra_ham_daemon.Base.{
  Option, if◌then◌else◌, leb, ltb, none, not, some, suc, zero, ℕ, ◌%◌, ◌&&◌, ◌+◌, ◌==◌,
}
use Prim.Native.Nat.{bit_or}
use lo_ra_ham_daemon.Frame.{flag_cad_timeout}
use lo_ra_ham_daemon.TxOutcome.{TxResult, TxOutcome, from_tx_result}
use lo_ra_ham_daemon.TxJob.{Job, JobResult, result_init}

pub data Probe : Type 0 where
  unavailable free busy : Probe

abbrev pub u32_mod : ℕ
u32_mod = 4294967296

pub record Environment (W : Type 0) : Type 0 where
  pub send_fn : Option (W → Job → W × TxResult)
  pub cad_probe_fn : Option (W → ℕ → W × Probe)
  pub sleep_fn : Option (W → ℕ → W)

module _ {W : Type 0} (env : Environment W) where
  unfoldable pub execute_with_sender : Option Job → W → W × JobResult
  execute_with_sender none w = (w, result_init none TxOutcome.invalid_packet)
  execute_with_sender (some job) w = elim env.send_fn [
    | none ↦ (w, result_init (some job) TxOutcome.radio_error)
    | some send ↦
        let (w', r) = send w job in
        (w', record (result_init (some job) (from_tx_result r)) { tx_result = r })
  ]

  unfoldable pub pause : Job → W → W
  pause job w = elim env.sleep_fn [
    | none ↦ w
    | some sleep ↦
        if ltb 0 job.cad_poll_interval_usec then sleep w job.cad_poll_interval_usec else w
  ]

  -- The end of a round that has not settled the matter; `again` is the next round.
  unfoldable pub tick : Job → ℕ → W → (ℕ → W → Option (W × JobResult)) → Option (W × JobResult)
  unfolding pause execute_with_sender
  tick job elapsed_ticks w again =
      let elapsed = (elapsed_ticks + 1) % u32_mod in
      if ltb 0 job.cad_wait_ticks && leb job.cad_wait_ticks elapsed
      then (if job.cad_send_after_timeout
          then some (
              execute_with_sender (some (record job { flags = bit_or job.flags flag_cad_timeout }))
                w)
          else some (w, result_init (some job) TxOutcome.channel_busy))
      else again elapsed (pause job w)

  -- One round for each unit of fuel; none means that the fuel ran out.
  unfoldable pub cad_loop : (W → ℕ → W × Probe) → Job → ℕ → ℕ → ℕ → ℕ → W → Option (W × JobResult)
  cad_loop probe job stable_ticks zero idle_ticks elapsed_ticks w = none
  cad_loop probe job stable_ticks (suc fuel) idle_ticks elapsed_ticks w =
      let (w', state) = probe w job.band in
      let idle = (idle_ticks + 1) % u32_mod in
      elim state [
        | free ↦
            if leb stable_ticks idle
            then some (execute_with_sender (some job) w')
            else tick job elapsed_ticks w' (cad_loop probe job stable_ticks fuel idle)
        | busy ↦ tick job elapsed_ticks w' (cad_loop probe job stable_ticks fuel 0)
        | unavailable ↦ some (w', result_init (some job) TxOutcome.radio_error)
      ]

  unfoldable pub execute_with_sender_and_cad : ℕ → Option Job → W → Option (W × JobResult)
  unfolding cad_loop tick execute_with_sender
  execute_with_sender_and_cad fuel none w = some (execute_with_sender none w)
  execute_with_sender_and_cad fuel (some job) w =
      if not job.cad_enabled
      then some (execute_with_sender (some job) w)
      else elim env.cad_probe_fn [
        | none ↦ some (execute_with_sender (some job) w)
        | some probe ↦
            cad_loop probe job
              (if job.cad_idle_stable_ticks == 0 then 1 else job.cad_idle_stable_ticks) fuel 0 0 w
      ]
