-- ===== src/RadioSend/Sent.antt =====
-- What a send comes to.
use lo_ra_ham_daemon.Base.{
  List, false, if◌then◌else◌, length, true, ℕ, ◌&&◌, ◌<◌, ◌∷◌, ◌≡◌, ◌≤◌, ◌⊎◌,
}
use lo_ra_ham_daemon.RxRearm.{is_ready, note_result}
use lo_ra_ham_daemon.TxOutcome.{TxResult}
use lo_ra_ham_daemon.TxStatus.{acquire, release}
use lo_ra_ham_daemon.RadioSend.{Chip, Controller, number, has_driver, limit_of, lora_send}

-- The radio is of this band, has a driver and is ready.
pub record IsUsable {D : Type 0} (band : ℕ) (c : Controller D) : Type 0 where
  pub same_band : band ≡ number c.band
  pub ready : is_ready c.rearm.health ≡ true
  pub driver : has_driver c.family ≡ true

-- `log` is what has been handed to transmit(): that call adds its bytes, and no other call of the driver
-- changes it.
pub record IsLog {D : Type 0} (chip : Chip D) (log : D → List (List ℕ)) : Type 0 where
  pub transmit_adds : (buf : List ℕ) (d : D) → log (chip.transmit buf d).1 ≡ buf ∷ log d
  pub standby_keeps : (d : D) → log (chip.standby d) ≡ log d
  pub sleep_keeps : (d : D) → log (chip.sleep d) ≡ log d
  pub clear_keeps : (d : D) → log (chip.clear_irq d) ≡ log d
  pub detach_keeps : (d : D) → log (chip.clear_packet_received_action d) ≡ log d
  pub attach_keeps : (d : D) → log (chip.set_packet_received_action d) ≡ log d
  pub receive_keeps : (d : D) → log (chip.start_receive d).1 ≡ log d

-- A send that reached the radio.
pub record IsSent {D : Type 0} (chip : Chip D) (log : D → List (List ℕ)) (buf : List ℕ)
    (c : Controller D) (result : TxResult) (c' : Controller D) : Type 0 where
  pub once : log c'.chip ≡ buf ∷ log c.chip
  pub prepared : D
  pub answered :
      result ≡ (if (chip.transmit buf prepared).0 then TxResult.ok else TxResult.radio_error)
  pub before : D
  pub chip_after : c'.chip ≡ (chip.start_receive before).1
  pub rearm : c'.rearm ≡ note_result (chip.start_receive before).0 c.rearm
  pub status : c'.status ≡ release (acquire c.status).1
  pub received : c'.received ≡ false
  pub mode : c'.mode ≡ c.mode

-- What a send comes to. A refusal leaves the controller as it is.
pub data Outcome {D : Type 0} (chip : Chip D) (log : D → List (List ℕ)) (buf : List ℕ) (band : ℕ)
    (c : Controller D) : TxResult → Controller D → Type 0 where
  invalid_band : ¬ (band ≡ number c.band) → Outcome chip log buf band c TxResult.invalid_band c
  not_ready :
      band ≡ number c.band
      → is_ready c.rearm.health && has_driver c.family ≡ false
      → Outcome chip log buf band c TxResult.radio_not_ready c
  invalid :
      IsUsable band c
      → (length buf ≡ 0) ⊎ (limit_of c.family c.mode < length buf)
      → Outcome chip log buf band c TxResult.invalid_packet c
  busy : IsUsable band c → c.status.tx_busy ≡ true → Outcome chip log buf band c TxResult.busy c
  transmitted :
      {result : TxResult} {c' : Controller D}
      → IsUsable band c
      → (0 < length buf) × (length buf ≤ limit_of c.family c.mode)
      → c.status.tx_busy ≡ false
      → IsSent chip log buf c result c'
      → Outcome chip log buf band c result c'

module _ {D : Type 0} (chip : Chip D) where
  module _ (log : D → List (List ℕ)) (l : IsLog chip log) where
    abbrev Ends : List ℕ → ℕ → Controller D → Type 0
    Ends buf band c =
        Outcome chip log buf band c (lora_send chip buf band c).0 (lora_send chip buf band c).1
