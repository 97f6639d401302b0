-- ===== src/RxRearm.antt =====
-- loraham_daemon/daemon_rx_rearm.cpp: a radio that could not be set to receive again is retried, and
-- given up as failed after too many failures in a row. A driver's return value of 0 is success; the
-- log lines are left out. Times are those of a clock that starts at 0.
pub mod Retries
mod Tests
use lo_ra_ham_daemon.Base.{
  Bool, false, if◌then◌else◌, leb, ltb, not, true, ℕ, ◌%◌, ◌&&◌, ◌+◌, ◌^◌, ◌||◌,
}
use lo_ra_ham_daemon.UsbWait.{Health, ready, failed}

abbrev pub fail_limit : ℕ
fail_limit = 30

abbrev pub retry_ms : ℕ
retry_ms = 1000

-- The part of the RadioController that the functions read and write. The last field is the counter
-- rx_rearm_failures of the radio's statistics.
pub record Rearm : Type 0 where
  pub consecutive_failures : ℕ
  pub rearm_pending : Bool
  pub next_retry_ms : ℕ
  pub health : Health
  pub failures : ℕ

abbrev pub is_ready : Health → Bool
is_ready ready = true
is_ready _ = false

unfoldable pub note_result : Bool → Rearm → Rearm
note_result true c = record c { consecutive_failures = 0; rearm_pending = false }
note_result false c =
    let consecutive = (c.consecutive_failures + 1) % 2 ^ 32 in
    record c {
      failures = c.failures + 1;
      consecutive_failures = consecutive;
      health = (if leb fail_limit consecutive && is_ready c.health then failed else c.health);
      rearm_pending = true;
    }

-- The flag is the return value: whether the radio receives.
unfoldable pub boot_result : Bool → Rearm → Bool × Rearm
boot_result true c = (true, c)
boot_result false c = (false, record c { health = failed })

-- What one call of `retry` finds: the time, whether a transmission runs before and after the lock is
-- taken, whether there is a driver, a packet that is not read yet, and the lock; and what the driver
-- would answer.
pub record Call : Type 0 where
  pub now_ms : ℕ
  pub tx_busy : Bool
  pub driver : Bool
  pub received : Bool
  pub locked : Bool
  pub tx_busy_then : Bool
  pub answer : Bool

-- The flag tells whether the driver was called.
unfoldable pub retry : Call → Rearm → Bool × Rearm
retry call c =
    let later = record c { next_retry_ms = call.now_ms + retry_ms } in
    if not c.rearm_pending || call.tx_busy
    then (false, c)
    else if ltb call.now_ms c.next_retry_ms
    then (false, c)
    else if not (is_ready c.health) || not call.driver
    then (false, later)
    else if call.received
    then (false, later)
    else if not call.locked
    then (false, later)
    else if call.tx_busy_then
    then (false, later)
    else (true, note_result call.answer later)
