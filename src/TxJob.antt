-- ===== src/TxJob.antt =====
-- loraham_daemon/daemon_tx_job.h: a transmission that waits for the radio, and its result.
-- `payload` holds the payload_len bytes that are valid; a completion slot of -1 is none.
use lo_ra_ham_daemon.Base.{Bool, List, Option, [], false, if◌then◌else◌, length, ltb, none, some, ℕ}
use lo_ra_ham_daemon.Base.Int.{pos}
use lo_ra_ham_daemon.Frame.{max_rf_payload}
use lo_ra_ham_daemon.TxOutcome.{TxResult, TxOutcome, code, to_tx_result, to_framed_status}

pub data TxMode : Type 0 where
  managed direct : TxMode

pub record Job : Type 0 where
  pub band : ℕ
  pub tx_mode : TxMode
  pub seq : ℕ
  pub flags : ℕ
  pub cad_enabled : Bool
  pub cad_send_after_timeout : Bool
  pub cad_wait_ticks : ℕ
  pub cad_idle_stable_ticks : ℕ
  pub cad_poll_interval_usec : ℕ
  pub payload : List ℕ
  pub completion_slot : Option ℕ
  pub completion_generation : ℕ

pub record JobResult : Type 0 where
  pub seq : ℕ
  pub flags : ℕ
  pub outcome : TxOutcome
  pub tx_result : TxResult
  pub framed_status : ℕ
  pub completion_slot : Option ℕ
  pub completion_generation : ℕ

unfoldable pub job_init : ℕ → TxMode → ℕ → Job
job_init band tx_mode seq = record {
  band = band;
  tx_mode = tx_mode;
  seq = seq;
  flags = 0;
  cad_enabled = false;
  cad_send_after_timeout = false;
  cad_wait_ticks = 0;
  cad_idle_stable_ticks = 0;
  cad_poll_interval_usec = 0;
  payload = [];
  completion_slot = none;
  completion_generation = 0;
}

unfoldable pub configure_cad_policy : Job → Bool → ℕ → ℕ → ℕ → Bool → Job
configure_cad_policy job enabled wait_ticks idle_stable_ticks poll_interval_usec
      send_after_timeout =
    record job {
      cad_enabled = enabled;
      cad_wait_ticks = wait_ticks;
      cad_idle_stable_ticks = idle_stable_ticks;
      cad_poll_interval_usec = poll_interval_usec;
      cad_send_after_timeout = send_after_timeout;
    }

-- none is the return value -1.
unfoldable pub set_payload : Job → List ℕ → Option Job
set_payload job payload =
    if ltb max_rf_payload (length payload) then none else some (record job { payload = payload })

unfoldable pub result_init : Option Job → TxOutcome → JobResult
result_init job outcome = record {
  seq = elim job [ none ↦ 0 | some j ↦ j.seq ];
  flags = elim job [ none ↦ 0 | some j ↦ j.flags ];
  outcome = outcome;
  tx_result = to_tx_result outcome;
  framed_status = to_framed_status (pos (code outcome));
  completion_slot = elim job [ none ↦ none | some j ↦ j.completion_slot ];
  completion_generation = elim job [ none ↦ 0 | some j ↦ j.completion_generation ];
}
