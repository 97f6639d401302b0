-- ===== src/Reception/Delivery.antt =====
-- What becomes of a packet.
use lo_ra_ham_daemon.Base.{
  All, Bool, Bool-cases, List, Option, ap, arith, drop, false, inl, inr, length, length-take, ltb,
  refl, some, suc, sym, take, take-append_left, true, ℕ, ◌%◌, ◌&&◌, ◌+◌, ◌/◌, ◌<◌, ◌==◌, ◌||◌, ◌∙◌,
  ◌∷◌, ◌≡◌, ◌≤◌, ◌⊎◌,
}
use mathlib.Core.Path.{subst}
use lo_ra_ham_daemon.Base.Int.{ℤ, pos, negsuc, to_u16}
use lo_ra_ham_daemon.DataTx.{RadioMode, lora, fsk}
use lo_ra_ham_daemon.RxRearm.{is_ready, note_result}
use lo_ra_ham_daemon.OutputQueue.{SendResult}
use lo_ra_ham_daemon.ClientSlot.{ClientSlot, broadcast_bytes_queued}
use lo_ra_ham_daemon.ClientSlot.Slot.{IsSlot}
use lo_ra_ham_daemon.ClientSlot.Returns.{Answers, broadcast_returns}
use lo_ra_ham_daemon.ClientSlot.Broadcast.{AllServed, broadcast_lem}
use lo_ra_ham_daemon.Frame.{encode_rx_packet, frame_size}
use lo_ra_ham_daemon.Frame.Payload.{encode_rx_packet_lem}
use lo_ra_ham_daemon.Reception.{
  Chip, Receiver, Busy, signal_unavailable, validate, finish_rx_packet, rearmed,
  restart_receive_after_empty_rx, drop_invalid_rx_packet, record_drop, capture_rx_signal,
  broadcast_framed, broadcast_rx_data, deliver, read_packet, process_radio_band,
  clear_irq_after_rx_read,
}

-- The frame of a packet: type 1, the length, the signal values as signed words, and the packet.
abbrev pub frame_of : ℤ → ℤ → List ℕ → List ℕ
frame_of rssi snr bytes =
    1
    ∷ (4 + length bytes) % 256
    ∷ (4 + length bytes) / 256 % 256
    ∷ to_u16 rssi % 256
    ∷ to_u16 rssi / 256 % 256
    ∷ to_u16 snr % 256
    ∷ to_u16 snr / 256 % 256
    ∷ bytes

encoded_frame :
    (scratch : List ℕ) (rssi snr : ℤ) (bytes : List ℕ)
    → length scratch ≡ 262
    → length bytes ≤ 255
    → (out : List ℕ) × (encode_rx_packet scratch rssi snr bytes ≡ some out)
      × (take (frame_size (4 + length bytes)) out ≡ frame_of rssi snr bytes)
unfolding frame_size
encoded_frame scratch rssi snr bytes s h =
    let e = encode_rx_packet_lem scratch rssi snr bytes h (omega (arith, s)) in
    let n : 3 + (4 + length bytes) ≡ suc (suc (suc (suc (suc (suc (suc (length bytes))))))) =
      omega arith in
    (
      _,
      e,
      rw n (rw (take-append_left bytes (drop (7 + length bytes) scratch) (length bytes) refl) refl),
    )

-- The radio has been set to receive, and the driver's answer to that is noted.
pub record IsReceiving {D : Type 0} (chip : Chip D) (r r' : Receiver D) : Type 0 where
  pub before : D
  pub chip_after : r'.chip ≡ (chip.start_receive before).1
  pub rearm : r'.rearm ≡ note_result (chip.start_receive before).0 r.rearm
  pub received : r'.received ≡ false

-- What is not sent to anyone stays, and the receiver is set to receive again.
pub record IsRearmed {D : Type 0} (chip : Chip D) (r r' : Receiver D) : Type 0 where
  pub receiving : IsReceiving chip r r'
  pub rx_packets : r'.rx_packets ≡ r.rx_packets
  pub rx_bytes : r'.rx_bytes ≡ r.rx_bytes
  pub rx_drops : r'.rx_drops ≡ r.rx_drops
  pub data_slots : r'.data_slots ≡ r.data_slots
  pub framed_data_slots : r'.framed_data_slots ≡ r.framed_data_slots
  pub data_wires : r'.data_wires ≡ r.data_wires
  pub framed_data_wires : r'.framed_data_wires ≡ r.framed_data_wires

-- A ready radio with a driver, whose flag is up.
abbrev pub is_called : {D : Type 0} → Receiver D → Bool
is_called r = is_ready r.rearm.health && r.has_driver && r.received

abbrev pub is_sending : Busy → Bool
is_sending busy = busy.before_lock || busy.under_lock

-- The packet is to be looked at.
abbrev pub IsHandled : {D : Type 0} → Busy → Receiver D → Type 0
IsHandled busy r = (is_called r ≡ true) × (is_sending busy ≡ false)

abbrev pub IsEmpty : ℤ → Type 0
IsEmpty (pos n) = n ≡ 0
IsEmpty (negsuc n) = Unit

-- Announced with more bytes than a packet has, or read with an error.
abbrev pub IsBad : {D : Type 0} → Chip D → Receiver D → Type 0
IsBad chip r =
    ((len : ℕ) × ((chip.packet_length r.chip).0 ≡ pos len) × (255 < len))
    ⊎ ((chip.read_data (chip.packet_length r.chip).1).0 ≡ false)

-- A packet of 1 to 255 bytes that the driver announced and read without an error.
pub record IsRead {D : Type 0} (chip : Chip D) (r : Receiver D) (bytes : List ℕ) : Type 0 where
  pub bounds : (0 < length bytes) × (length bytes ≤ 255)
  pub announced : (chip.packet_length r.chip).0 ≡ pos (length bytes)
  pub without_error : (chip.read_data (chip.packet_length r.chip).1).0 ≡ true
  pub bytes_read : bytes ≡ take (length bytes) (chip.read_data (chip.packet_length r.chip).1).1

-- What the driver measures; FSK has no SNR.
pub record IsMeasured {D : Type 0} (chip : Chip D) (mode : RadioMode) (rssi snr : ℤ) : Type 0 where
  pub before : D
  pub rssi_value : rssi ≡ (chip.rssi_cdbm before).0
  pub lora_snr : mode ≡ lora → snr ≡ (chip.snr_cdb (chip.rssi_cdbm before).1).0
  pub fsk_snr : mode ≡ fsk → snr ≡ signal_unavailable

-- What a tick comes to.
pub data Outcome {D : Type 0} (chip : Chip D) (raw_script framed_script : ℕ → List SendResult)
    (busy : Busy) (r r' : Receiver D) : Type 0 where
  nothing : is_called r ≡ false → r' ≡ r → Outcome chip raw_script framed_script busy r r'
  discarded :
      is_called r ≡ true
      → is_sending busy ≡ true
      → r' ≡ record r { received = false }
      → Outcome chip raw_script framed_script busy r r'
  silent :
      IsHandled busy r
      → IsEmpty (chip.packet_length r.chip).0
      → IsRearmed chip r r'
      → Outcome chip raw_script framed_script busy r r'
  dropped :
      IsHandled busy r
      → IsBad chip r
      → IsRearmed chip (record r { rx_drops = r.rx_drops + 1 }) r'
      → Outcome chip raw_script framed_script busy r r'
  delivered :
      (bytes : List ℕ) (rssi snr : ℤ)
      → IsHandled busy r
      → IsRead chip r bytes
      → IsMeasured chip r.mode rssi snr
      → AllServed raw_script 0 bytes r.data_slots r'.data_wires r'.data_slots
      → AllServed framed_script 0
          (frame_of rssi snr bytes)
          r.framed_data_slots
          r'.framed_data_wires
          r'.framed_data_slots
      → IsReceiving chip r r'
      → (r'.rx_packets ≡ r.rx_packets + 1)
        × (r'.rx_bytes ≡ r.rx_bytes + length bytes)
        × (r'.rx_drops ≡ r.rx_drops)
      → Outcome chip raw_script framed_script busy r r'

-- The receiver behind its two broadcasts.
abbrev served :
    {D : Type 0}
    → Receiver D
    → List (List ℕ) × List ClientSlot
    → List (List ℕ) × List ClientSlot
    → Receiver D
served r raw framed = record r {
  data_wires = raw.0;
  data_slots = raw.1;
  framed_data_wires = framed.0;
  framed_data_slots = framed.1;
}

mode-cases : (mode : RadioMode) → (mode ≡ lora) ⊎ (mode ≡ fsk)
mode-cases lora = inl refl
mode-cases fsk = inr refl

sign-cases : (z : ℤ) → ((n : ℕ) × (z ≡ negsuc n)) ⊎ ((n : ℕ) × (z ≡ pos n))
sign-cases (negsuc n) = inl (n, refl)
sign-cases (pos n) = inr (n, refl)

module _ {D : Type 0} (chip : Chip D) where
  finished :
      (r : Receiver D) (d : D) (r' : Receiver D)
      → r' ≡ rearmed chip d (record r { received = false })
      → IsRearmed chip r r'
  finished r d r' e = subst (IsRearmed chip r) (sym e) (record {
    receiving = record { before = d; chip_after = refl; rearm = refl; received = refl };
    rx_packets = refl;
    rx_bytes = refl;
    rx_drops = refl;
    data_slots = refl;
    framed_data_slots = refl;
    data_wires = refl;
    framed_data_wires = refl;
  })

  finish_rx_packet_rearms :
      (r : Receiver D) → (d : D) × (finish_rx_packet chip r ≡ rearmed chip d r)
  unfolding finish_rx_packet
  finish_rx_packet_rearms r = elim (mode-cases r.mode) [
    | inl e ↦ (chip.clear_irq r.chip, ground (arith, e))
    | inr e ↦ (r.chip, ground (arith, e))
  ]

  finish_rx_packet-IsRearmed :
      (r : Receiver D) (d : D)
      → IsRearmed chip r (finish_rx_packet chip (record r { received = false; chip = d }))
  finish_rx_packet-IsRearmed r d =
      let (d', e) = finish_rx_packet_rearms (record r { received = false; chip = d }) in
      finished r d' _ e

  module _ (raw_script framed_script : ℕ → List SendResult) (scratch : List ℕ)
      (full : length scratch ≡ 262) (raw_answers : (i : ℕ) → Answers (raw_script i))
      (framed_answers : (i : ℕ) → Answers (framed_script i)) where
    broadcast_rx_data_lem :
        (buf : List ℕ) (rssi snr : ℤ) (r : Receiver D)
        → (0 < length buf) × (length buf ≤ 255)
        → All IsSlot r.data_slots
        → All IsSlot r.framed_data_slots
        → (raw framed : List (List ℕ) × List ClientSlot) × (broadcast_rx_data chip raw_script
              framed_script scratch buf rssi snr r
            ≡ some (served r raw framed))
          × AllServed raw_script 0 buf r.data_slots raw.0 raw.1
          × AllServed framed_script 0 (frame_of rssi snr buf) r.framed_data_slots framed.0 framed.1
    unfolding broadcast_rx_data broadcast_framed
    broadcast_rx_data_lem buf rssi snr r (lo, hi) v w =
        let (out, encoded, frame) = encoded_frame scratch rssi snr buf full hi in
        let wired : take (frame_size (4 + length buf)) out ≡ frame_of rssi snr buf = frame in
        let (raw, sent) = broadcast_returns raw_script buf r.data_slots raw_answers v in
        let (framed, sent_framed) =
          broadcast_returns framed_script (take (frame_size (4 + length buf)) out)
            r.framed_data_slots framed_answers w in
        (
          raw,
          framed,
          ground (arith, sent, encoded, sent_framed, lo, hi),
          broadcast_lem raw_script buf r.data_slots raw.0 raw.1 v lo sent,
          broadcast_lem framed_script (frame_of rssi snr buf) r.framed_data_slots framed.0 framed.1
              w (omega arith)
              (subst (λ b. broadcast_bytes_queued framed_script b r.framed_data_slots ≡ some framed)
                wired sent_framed),
        )

    abbrev Ends : Busy → Receiver D → Option (Receiver D) → Type 0
    Ends busy r o =
        (r' : Receiver D) × (o ≡ some r') × Outcome chip raw_script framed_script busy r r'

    capture-IsMeasured :
        (mode : RadioMode) (d : D)
        → IsMeasured chip mode (capture_rx_signal chip mode d).0 (capture_rx_signal chip mode d).1
    unfolding capture_rx_signal
    capture-IsMeasured lora d = record {
      before = d;
      rssi_value = refl;
      lora_snr = λ e. refl;
      fsk_snr = λ e. cc;
    }
    capture-IsMeasured fsk d = record {
      before = d;
      rssi_value = refl;
      lora_snr = λ e. cc;
      fsk_snr = λ e. refl;
    }

    deliver-Outcome :
        (buf : List ℕ) (busy : Busy) (r : Receiver D) (d : D)
        → IsHandled busy r
        → IsRead chip r buf
        → All IsSlot r.data_slots
        → All IsSlot r.framed_data_slots
        → Ends busy r (
            deliver chip raw_script framed_script scratch buf
              (record r { received = false; chip = d }))
    unfolding deliver
    deliver-Outcome buf busy r d handled is_read v w =
        let signal = capture_rx_signal chip r.mode d in
        let counted : Receiver D = record r {
          received = false;
          chip = signal.2;
          rx_packets = r.rx_packets + 1;
          rx_bytes = r.rx_bytes + length buf;
        } in
        let (raw, framed, went, to_raw, to_framed) =
          broadcast_rx_data_lem buf signal.0 signal.1 counted is_read.bounds v w in
        let (d', finish) = finish_rx_packet_rearms (served counted raw framed) in
        (
          finish_rx_packet chip (served counted raw framed),
          ground (arith, went),
          subst (Outcome chip raw_script framed_script busy r) (sym finish) (
              Outcome.delivered buf signal.0 signal.1 handled is_read (capture-IsMeasured r.mode d)
                to_raw to_framed
                (record { before = d'; chip_after = refl; rearm = refl; received = refl })
                (refl, refl, refl)),
        )

    read_packet-Outcome :
        (len : ℕ) (busy : Busy) (r : Receiver D) (d : D)
        → IsHandled busy r
        → (0 < len) × (len ≤ 255)
        → chip.packet_length r.chip ≡ (pos len, d)
        → ((x : D) → length (chip.read_data x).1 ≡ 256)
        → All IsSlot r.data_slots
        → All IsSlot r.framed_data_slots
        → Ends busy r (
            read_packet chip raw_script framed_script scratch len
              (record r { received = false; chip = d }))
    unfolding read_packet validate
    read_packet-Outcome len busy r d handled (lo, hi) says buffer v w =
        let read = chip.read_data d in
        let after : D = clear_irq_after_rx_read chip r.mode read.2 in
        let size : length (take len read.1) ≡ len =
          omega (arith, length-take len read.1, buffer d, hi) in
        elim (Bool-cases read.0) [
          | inl ok ↦
              let (r', e, o) =
                deliver-Outcome (take len read.1) busy r after handled
                  (record {
                    bounds = (omega arith, omega arith);
                    announced = ap (λ t. t.0) says ∙ ap pos (sym size);
                    without_error = ap (λ t. (chip.read_data t.1).0) says ∙ ok;
                    bytes_read =
                        subst
                          (λ t.
                            take len read.1
                            ≡ take (length (take len read.1)) (chip.read_data t.1).1)
                          (sym says) (ap (λ n. take n read.1) (sym size));
                  })
                  v w in
              (r', ground (arith, e, ok, lo, hi), o)
          | inr bad ↦ (
            finish_rx_packet chip (record_drop chip (record r { received = false; chip = after })),
            ground (arith, bad),
            Outcome.dropped handled (inr (ap (λ t. (chip.read_data t.1).0) says ∙ bad))
                (finish_rx_packet-IsRearmed (record r { rx_drops = r.rx_drops + 1 }) after),
          )
        ]

    -- A tick ends and comes to what `Outcome` says, for a radio with slots in order, sockets that
    -- each answer more often than a queue holds bytes, and a driver that reads into a buffer of 256
    -- bytes. Nothing happens without a ready radio and its flag; a packet that comes while a send is
    -- busy is discarded; an empty interrupt sends nothing; a packet that is announced with more than
    -- 255 bytes, or that the driver reads with an error, is counted as dropped and sent to nobody.
    -- Any other packet has 1 to 255 bytes, those that the driver announced and read; it is broadcast
    -- to the raw clients as it is and to the framed clients as one whole RX frame with the signal
    -- values that the driver measures, which comes to what `Served` says for each client (so that it
    -- has the bytes unless its queue was full or a call of send() failed); and it is counted with its
    -- bytes. Except in the first two cases the driver is set to receive as the last thing, what it
    -- answers is noted, and the flag is down.
    pub process_radio_band-Outcome :
        (busy : Busy) (r : Receiver D)
        → ((x : D) → length (chip.read_data x).1 ≡ 256)
        → All IsSlot r.data_slots
        → All IsSlot r.framed_data_slots
        → (r' : Receiver D) × (process_radio_band chip raw_script framed_script scratch busy r
            ≡ some r')
          × Outcome chip raw_script framed_script busy r r'
    unfolding process_radio_band restart_receive_after_empty_rx drop_invalid_rx_packet
    process_radio_band-Outcome busy r buffer v w =
        let asked = chip.packet_length r.chip in
        let prepared : Receiver D = record r { received = false; chip = asked.1 } in
        elim (Bool-cases (is_called r)) [
          | inr idle ↦ (r, ground (arith, idle), Outcome.nothing idle refl)
          | inl on ↦ elim (Bool-cases (is_sending busy)) [
            | inl sending ↦ (
              record r { received = false },
              ground (arith, on, sending),
              Outcome.discarded on sending refl,
            )
            | inr free ↦
                let empty : IsEmpty asked.0
                    → Outcome chip raw_script framed_script busy r
                        (restart_receive_after_empty_rx chip prepared) =
                  λ h. Outcome.silent (on, free) h (finished r _ _ refl) in
                elim (sign-cases asked.0) [
                  | inl (n, below) ↦
                      (_, ground (arith, on, free, below), empty (subst IsEmpty (sym below) tt))
                  | inr (len, is) ↦ elim (Bool-cases (len == 0)) [
                    | inl zero_len ↦ (
                      _,
                      ground (arith, on, free, is, zero_len),
                      empty (subst IsEmpty (sym is) (ground (arith, zero_len))),
                    )
                    | inr some_len ↦ elim (Bool-cases (ltb 255 len)) [
                      | inl long ↦ (
                        drop_invalid_rx_packet chip (record_drop chip prepared),
                        ground (arith, on, free, is, some_len, long),
                        Outcome.dropped (on, free) (inl (len, is, ground (arith, long)))
                            (finished (record r { rx_drops = r.rx_drops + 1 }) _ _ refl),
                      )
                      | inr fits ↦
                          let (r', e, o) =
                            read_packet-Outcome len busy r asked.1 (on, free)
                              (ground (arith, some_len), ground (arith, fits))
                              (ap (λ z. (z, asked.1)) is) buffer v w in
                          (r', ground (arith, e, on, free, is, some_len, fits), o)
                    ]
                  ]
                ]
          ]
        ]
