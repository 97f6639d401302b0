-- ===== src/RadioSend/Tests.antt =====
-- Three bytes on a ready radio, whose driver counts its calls and keeps what it sent.
use lo_ra_ham_daemon.Base.{List, [], false, some, true, ℕ, ◌+◌, ◌∷◌}
use lo_ra_ham_daemon.DataTx.{sx127x, fsk}
use lo_ra_ham_daemon.UsbWait.{ready}
use lo_ra_ham_daemon.RadioSend.{Chip, Controller, band_433}

-- The calls other than transmit(), and what was handed to it.
abbrev State : Type 0
State = ℕ × List (List ℕ)

abbrev called : State → State
called d = (d.0 + 1, d.1)

abbrev chip : Chip State
chip = record {
  standby = called;
  sleep = called;
  clear_irq = called;
  clear_packet_received_action = called;
  set_packet_received_action = called;
  transmit = λ buf d. (true, (d.0, buf ∷ d.1));
  start_receive = λ d. (false, called d);
}

abbrev log : State → List (List ℕ)
log d = d.1

abbrev controller : Controller State
controller = record {
  chip = (0, []);
  band = band_433;
  family = some sx127x;
  mode = fsk;
  received = true;
  status = record { tx_busy = false; generation = 4; broadcast_generation = 3 };
  rearm = record {
    consecutive_failures = 0;
    rearm_pending = false;
    next_retry_ms = 0;
    health = ready;
    failures = 0;
  };
}
