-- ===== src/RadioSend.antt =====
-- loraham_daemon/daemon_tx.cpp: one packet on the radio. The driver is an interface; true is its
-- RADIOLIB_ERR_NONE. The controller is not NULL and of the one band of the process; its status is that
-- of TxStatus, the delays, log lines, the LED and the RF log are left out. What other threads change
-- during a send is not in it; TxStatus has their operations on the status between those of a send.
pub mod Sent
mod Tests
use lo_ra_ham_daemon.Base.{
  Bool, List, Option, false, if◌then◌else◌, length, ltb, none, not, some, true, ℕ, ◌&&◌, ◌==◌,
}
use lo_ra_ham_daemon.DataTx.{RadioMode, ChipFamily, lora, fsk, payload_limit}
use lo_ra_ham_daemon.RxRearm.{Rearm, is_ready, note_result}
use lo_ra_ham_daemon.Reception.{validate, Validation, valid, empty, too_long}
use lo_ra_ham_daemon.TxOutcome.{TxResult}
use lo_ra_ham_daemon.TxStatus.{Status, acquire, release}

-- What is called of a RadioDriver.
pub record Chip (D : Type 0) : Type 0 where
  pub standby : D → D
  pub sleep : D → D
  pub clear_irq : D → D
  pub clear_packet_received_action : D → D
  pub set_packet_received_action : D → D
  pub transmit : List ℕ → D → Bool × D
  pub start_receive : D → Bool × D

pub data Band : Type 0 where
  band_433 band_868 : Band

pub record Controller (D : Type 0) : Type 0 where
  pub chip : D
  pub band : Band
  -- none without a driver
  pub family : Option ChipFamily
  pub mode : RadioMode
  pub received : Bool
  pub status : Status
  pub rearm : Rearm

abbrev pub number : Band → ℕ
number band_433 = 433
number band_868 = 868

abbrev pub has_driver : Option ChipFamily → Bool
has_driver none = false
has_driver (some family) = true

abbrev pub limit_of : Option ChipFamily → RadioMode → ℕ
unfolding payload_limit
limit_of none mode = payload_limit none
limit_of (some family) mode = payload_limit (some (family, mode))

module _ {D : Type 0} (chip : Chip D) where
  abbrev pub detached : RadioMode → D → D
  detached lora d = chip.clear_packet_received_action d
  detached fsk d = d

  -- Behind standby and the clearing of the IRQs.
  abbrev pub reset_fifo : Band → RadioMode → D → D
  reset_fifo band_433 lora d = chip.standby (chip.sleep d)
  reset_fifo band mode d = d

  unfoldable pub prepare_tx : Controller D → Controller D
  prepare_tx c = record c {
    received = false;
    chip = reset_fifo c.band c.mode (chip.clear_irq (chip.standby (detached c.mode c.chip)));
  }

  abbrev pub clear_once_more : Band → D → D
  clear_once_more band_433 d = chip.clear_irq d
  clear_once_more band_868 d = d

  -- Under the lock: what the driver answered, and the controller.
  unfoldable pub transmit_locked : List ℕ → Controller D → TxResult × Controller D
  unfolding prepare_tx
  transmit_locked buf c =
      let prepared = prepare_tx c in
      let went = chip.transmit buf (clear_once_more c.band prepared.chip) in
      let started = chip.start_receive (chip.set_packet_received_action (chip.clear_irq went.1)) in
      (
        (if went.0 then TxResult.ok else TxResult.radio_error),
        record prepared {
          chip = started.1;
          received = false;
          rearm = note_result started.0 c.rearm;
        },
      )

  -- Behind the acquisition of the transmission.
  unfoldable pub send_acquired : List ℕ → Controller D → TxResult × Controller D
  unfolding transmit_locked
  send_acquired buf c =
      let done = transmit_locked buf c in
      (done.0, record (done.1) { status = release done.1.status })

  unfoldable pub send_controller : List ℕ → Controller D → TxResult × Controller D
  unfolding send_acquired
  send_controller buf c =
      if not (has_driver c.family && is_ready c.rearm.health)
      then (TxResult.radio_not_ready, c)
      else elim (validate (length buf)) [
        | valid ↦
            let taken = acquire c.status in
            if ltb (limit_of c.family c.mode) (length buf)
            then (TxResult.invalid_packet, c)
            else if not taken.0
            then (TxResult.busy, c)
            else send_acquired buf (record c { status = taken.1 })
        | _ ↦ (TxResult.invalid_packet, c)
      ]

  -- The band of the process is that of its controller.
  unfoldable pub lora_send : List ℕ → ℕ → Controller D → TxResult × Controller D
  unfolding send_controller
  lora_send buf band c =
      if not (band == number c.band)
      then (TxResult.invalid_band, c)
      else if not (is_ready c.rearm.health)
      then (TxResult.radio_not_ready, c)
      else send_controller buf c
