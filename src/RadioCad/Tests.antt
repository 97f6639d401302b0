-- ===== src/RadioCad/Tests.antt =====
-- A radio in LoRa mode with a packet in it that the flag does not tell of yet, and levels in dB above
-- -200.
use lo_ra_ham_daemon.Base.{
  Bool, Option, [], arith, false, leb, none, refl, true, ℕ, ◌&&◌, ◌+◌, ◌↔◌, ◌∷◌, ◌≡◌,
}
use lo_ra_ham_daemon.Base.Int.{ℤ, pos}
use lo_ra_ham_daemon.DataTx.{lora}
use lo_ra_ham_daemon.TxExecutor.{Probe}
use lo_ra_ham_daemon.UsbWait.{ready}
use lo_ra_ham_daemon.RadioCad.{Levels, Chip, Radio, Gate, probe, try_probe, cad_next_busy}
use lo_ra_ham_daemon.RadioCad.Pending.{KeepsPacket, IsSpared, probe-IsSpared}
use lo_ra_ham_daemon.RadioCad.Monitor.{published, IsLow, published_clears}

abbrev levels : Levels
levels = record {
  Level = ℕ;
  no_reading = 0;
  is_unusable = λ x. leb x 10;
  reaches = λ x threshold. leb threshold x;
  is_clear_of = λ x threshold. leb (x + 3) threshold;
}

-- Whether there is a packet, whether the modem is that of LoRa, and whether it is stopped; only then
-- it tells of the packet.
abbrev State : Type 0
State = Bool × Bool × Bool

abbrev chip : Chip ℕ State
chip = record {
  standby = λ d. (true, (d.0, d.1, true));
  rx_done_pending = λ d. (d.0 && d.2, d);
  clear_packet_received_action = λ d. d;
  set_packet_received_action = λ d. d;
  clear_irq = λ d. (false, d.1, d.2);
  start_receive = λ d. (true, (false, d.1, false));
  scan_channel = λ d. (pos 0, (false, d.1, true));
  rssi_probe = λ d. (80, d);
  get_rssi = λ d. (90, (d.0 && d.1, d.1, d.2));
}

abbrev no_names : ℤ → Option Probe
no_names state = none

abbrev radio : Radio ℕ State
radio = record {
  chip = (true, true, false);
  has_driver = true;
  mode = lora;
  received = false;
  cad_active = false;
  scan_available = true;
  threshold = 110;
  rearm = record {
    consecutive_failures = 0;
    rearm_pending = false;
    next_retry_ms = 0;
    health = ready;
    failures = 0;
  };
  broadcast_active = false;
  free_streak = 0;
}

abbrev gate : Gate
gate = record { tx_busy = false; locked = true; tx_busy_then = false }

abbrev Holds : State → Type 0
Holds d = d.0 ≡ true

abbrev Lora : State → Type 0
Lora d = d.1 ≡ true

abbrev Stopped : State → Type 0
Stopped d = d.2 ≡ true

chip-KeepsPacket : KeepsPacket levels chip no_names Holds Lora Stopped
chip-KeepsPacket = record {
  standby_keeps = λ d h. h;
  asking_keeps = λ d h. h;
  standby_stops = λ d h. refl;
  asking_tells = λ d s h. ground (arith, s, h);
  rssi_keeps = λ d h. h;
  last_rssi_keeps = λ d l h. ground (arith, l, h);
}

probe-IsSpared_example :
    IsSpared levels chip no_names Holds radio (probe levels chip no_names gate radio)
    × IsSpared levels chip no_names Holds radio (try_probe levels chip no_names gate radio)
probe-IsSpared_example =
    probe-IsSpared levels chip no_names Holds Lora Stopped chip-KeepsPacket gate radio (λ _. refl)
      refl

-- -80 dBm, then twice -100 dBm, with a threshold of -90 dBm
published_clears_example :
    ((published levels chip no_names 110 (120 ∷ 100 ∷ 100 ∷ []) (false, 0)).0 ≡ false)
    ↔ (IsLow levels chip no_names 110 100 × IsLow levels chip no_names 110 100)
unfolding cad_next_busy
published_clears_example = published_clears levels chip no_names 110 (120 ∷ []) 100 100 refl
