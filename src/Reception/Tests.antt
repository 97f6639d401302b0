-- ===== src/Reception/Tests.antt =====
-- A LoRa packet of two bytes with one raw and one framed client, whose sockets take nothing yet.
use lo_ra_ham_daemon.Base.{
  All, List, [], ap, arith, false, refl, replicate, some, suc, true, zero, ℕ, ◌+◌, ◌∷◌, ◌≡◌,
}
use lo_ra_ham_daemon.Base.Int.{pos, negsuc}
use lo_ra_ham_daemon.DataTx.{lora}
use lo_ra_ham_daemon.UsbWait.{ready}
use lo_ra_ham_daemon.OutputQueue.{SendResult, would_block, capacity}
use lo_ra_ham_daemon.OutputQueue.Flush.{answers}
use lo_ra_ham_daemon.ClientSlot.{ClientSlot, init, set_fd}
use lo_ra_ham_daemon.ClientSlot.Slot.{IsSlot, set_fd-IsSlot}
use lo_ra_ham_daemon.ClientSlot.Returns.{Answers}
use lo_ra_ham_daemon.Reception.{Chip, Receiver, Busy, process_radio_band}
use lo_ra_ham_daemon.Reception.Delivery.{Outcome, process_radio_band-Outcome}

abbrev chip : Chip ℕ
chip = record {
  packet_length = λ d. (pos 2, d);
  read_data = λ d. (true, replicate 256 7, d);
  clear_irq = λ d. d;
  start_receive = λ d. (true, d + 1);
  rssi_cdbm = λ d. (negsuc 9999, d);
  snr_cdb = λ d. (pos 500, d);
}

abbrev clients : List ClientSlot
clients = set_fd init 5 ∷ []

clients-IsSlot : All IsSlot clients
clients-IsSlot = (set_fd-IsSlot init 5, tt)

abbrev receiver : Receiver ℕ
receiver = record {
  chip = 0;
  has_driver = true;
  mode = lora;
  received = true;
  rearm = record {
    consecutive_failures = 0;
    rearm_pending = false;
    next_retry_ms = 0;
    health = ready;
    failures = 0;
  };
  rx_packets = 0;
  rx_bytes = 0;
  rx_drops = 0;
  data_slots = clients;
  framed_data_slots = clients;
  data_wires = [];
  framed_data_wires = [];
}

abbrev busy : Busy
busy = record { before_lock = false; under_lock = false }

answers-replicate : (n : ℕ) → answers (replicate n would_block) ≡ n
answers-replicate zero = refl
answers-replicate (suc n) = ap suc (answers-replicate n)

abbrev script : ℕ → List SendResult
script i = replicate (capacity + 1) would_block

script-Answers : (i : ℕ) → Answers (script i)
script-Answers i = omega (arith, answers-replicate (capacity + 1))

process_radio_band-Outcome_example :
    (r' : Receiver ℕ) × (process_radio_band chip script script (replicate 262 0) busy receiver
      ≡ some r')
    × Outcome chip script script busy receiver r'
process_radio_band-Outcome_example =
    process_radio_band-Outcome chip script script (replicate 262 0) refl script-Answers
      script-Answers busy receiver (λ x. refl) clients-IsSlot clients-IsSlot
