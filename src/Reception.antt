-- ===== src/Reception.antt =====
-- loraham_daemon/daemon_rx.cpp: a received packet, from the radio to all clients. The driver is an
-- interface; true is its RADIOLIB_ERR_NONE, and the signal values are those in hundredths that
-- daemon_signal_to_centi makes of its RSSI and SNR. What send() answers is the environment, as in
-- ClientSlot. Log lines, the RF log and the clearing of the read buffer are left out.
pub mod Delivery
mod Tests
use lo_ra_ham_daemon.Base.{
  Bool, List, Option, false, if◌then◌else◌, length, ltb, none, not, some, take, ℕ, ◌&&◌, ◌+◌, ◌==◌,
  ◌||◌,
}
use lo_ra_ham_daemon.Base.Int.{ℤ, pos, negsuc}
use lo_ra_ham_daemon.DataTx.{RadioMode, lora, fsk}
use lo_ra_ham_daemon.RxRearm.{Rearm, is_ready, note_result}
use lo_ra_ham_daemon.OutputQueue.{SendResult}
use lo_ra_ham_daemon.ClientSlot.{ClientSlot, broadcast_bytes_queued}
use lo_ra_ham_daemon.Frame.{max_rf_payload, rx_meta_len, encode_rx_packet, frame_size}

-- What is called of a RadioDriver.
pub record Chip (D : Type 0) : Type 0 where
  pub packet_length : D → ℤ × D
  -- readData: the bytes of the buffer behind the read
  pub read_data : D → Bool × List ℕ × D
  pub clear_irq : D → D
  pub start_receive : D → Bool × D
  pub rssi_cdbm : D → ℤ × D
  pub snr_cdb : D → ℤ × D

-- The parts of the RadioController, its statistics and the RadioChannelIo that a tick reads and writes.
-- The wires are what has gone out to each client in the broadcasts of the tick.
pub record Receiver (D : Type 0) : Type 0 where
  pub chip : D
  pub has_driver : Bool
  pub mode : RadioMode
  pub received : Bool
  pub rearm : Rearm
  pub rx_packets : ℕ
  pub rx_bytes : ℕ
  pub rx_drops : ℕ
  pub data_slots : List ClientSlot
  pub framed_data_slots : List ClientSlot
  pub data_wires : List (List ℕ)
  pub framed_data_wires : List (List ℕ)

-- tx_busy before and after the lock is taken
pub record Busy : Type 0 where
  pub before_lock : Bool
  pub under_lock : Bool

abbrev pub signal_unavailable : ℤ
signal_unavailable = negsuc 32767

pub data Validation : Type 0 where
  valid empty too_long : Validation

-- The pointer is never NULL.
unfoldable pub validate : ℕ → Validation
validate len = if len == 0 then empty else if ltb 255 len then too_long else valid

module _ {D : Type 0} (chip : Chip D) where
  abbrev pub rearmed : D → Receiver D → Receiver D
  rearmed d r =
      let started = chip.start_receive d in
      record r { chip = started.1; rearm = note_result started.0 r.rearm }

  unfoldable pub restart_receive_after_empty_rx : Receiver D → Receiver D
  restart_receive_after_empty_rx r = rearmed (chip.clear_irq r.chip) r

  unfoldable pub drop_invalid_rx_packet : Receiver D → Receiver D
  drop_invalid_rx_packet r = rearmed (chip.clear_irq r.chip) (record r { received = false })

  unfoldable pub finish_rx_packet : Receiver D → Receiver D
  finish_rx_packet r = elim (r.mode) [
    | lora ↦ rearmed (chip.clear_irq r.chip) r
    | fsk ↦ rearmed r.chip r
  ]

  unfoldable pub clear_irq_after_rx_read : RadioMode → D → D
  clear_irq_after_rx_read fsk d = chip.clear_irq d
  clear_irq_after_rx_read lora d = d

  abbrev pub record_drop : Receiver D → Receiver D
  record_drop r = record r { rx_drops = r.rx_drops + 1 }

  -- The RSSI and the SNR, which FSK has not.
  unfoldable pub capture_rx_signal : RadioMode → D → ℤ × ℤ × D
  capture_rx_signal lora d =
      let rssi = chip.rssi_cdbm d in let snr = chip.snr_cdb rssi.1 in (rssi.0, snr.0, snr.1)
  capture_rx_signal fsk d = let rssi = chip.rssi_cdbm d in (rssi.0, signal_unavailable, rssi.1)

  module _ (raw_script framed_script : ℕ → List SendResult) (scratch : List ℕ) where
    -- none is a frame that could not be encoded.
    unfoldable pub broadcast_framed : List ℕ → Option (List ℕ) → Receiver D → Option (Receiver D)
    broadcast_framed buf none r = some r
    broadcast_framed buf (some frame) r =
        elim (broadcast_bytes_queued framed_script
          (take (frame_size (rx_meta_len + length buf)) frame) r.framed_data_slots) [
            | none ↦ none
            | some framed ↦
                some (record r { framed_data_wires = framed.0; framed_data_slots = framed.1 })
          ]

    -- `scratch` is what the frame's buffer holds before. The raw clients are served first.
    unfoldable pub broadcast_rx_data : List ℕ → ℤ → ℤ → Receiver D → Option (Receiver D)
    unfolding broadcast_framed
    broadcast_rx_data buf rssi_cdbm snr_cdb r =
        if length buf == 0
        then some r
        else elim (broadcast_bytes_queued raw_script buf r.data_slots) [
          | none ↦ none
          | some raw ↦
              let served = record r { data_wires = raw.0; data_slots = raw.1 } in
              if ltb max_rf_payload (length buf)
              then some served
              else broadcast_framed buf (encode_rx_packet scratch rssi_cdbm snr_cdb buf) served
        ]

    -- Behind a successful read of `len` bytes.
    unfoldable pub deliver : List ℕ → Receiver D → Option (Receiver D)
    unfolding broadcast_rx_data capture_rx_signal
    deliver buf r =
        let signal = capture_rx_signal r.mode r.chip in
        let counted = record r {
          chip = signal.2;
          rx_packets = r.rx_packets + 1;
          rx_bytes = r.rx_bytes + length buf;
        } in
        elim (broadcast_rx_data buf signal.0 signal.1 counted) [
          | none ↦ none
          | some served ↦ some (finish_rx_packet served)
        ]

    -- The packet that the length announces.
    unfoldable pub read_packet : ℕ → Receiver D → Option (Receiver D)
    unfolding deliver clear_irq_after_rx_read
    read_packet len r =
        let read = chip.read_data r.chip in
        let after = record r { chip = clear_irq_after_rx_read r.mode read.2 } in
        if not read.0 then some (finish_rx_packet (record_drop after)) else elim (validate len) [
          | valid ↦ deliver (take len read.1) after
          | _ ↦ some (finish_rx_packet (record_drop after))
        ]

    unfoldable pub process_radio_band : Busy → Receiver D → Option (Receiver D)
    unfolding read_packet
    process_radio_band tx_busy r =
        if not (is_ready r.rearm.health && r.has_driver) || not r.received
        then some r
        else if tx_busy.before_lock || tx_busy.under_lock
        then some (record r { received = false })
        else (let asked = chip.packet_length r.chip in
            let prepared = record r { received = false; chip = asked.1 } in
            elim asked.0 [
              | negsuc n ↦ some (restart_receive_after_empty_rx prepared)
              | pos len ↦
                  if len == 0
                  then some (restart_receive_after_empty_rx prepared)
                  else if ltb 255 len
                  then some (drop_invalid_rx_packet (record_drop prepared))
                  else read_packet len prepared
            ])
