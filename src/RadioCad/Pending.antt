-- ===== src/RadioCad/Pending.antt =====
-- A packet that has been received and not been read yet.
use lo_ra_ham_daemon.Base.{
  Bool, Bool-cases, Option, ap, arith, false, if◌then◌else◌, inl, inr, none, not, refl, some, sym,
  true, ◌&&◌, ◌∙◌, ◌≡◌, ◌⊎◌,
}
use lo_ra_ham_daemon.Base.Int.{ℤ}
use mathlib.Core.Path.{subst}
use lo_ra_ham_daemon.DataTx.{RadioMode, lora, fsk}
use lo_ra_ham_daemon.TxExecutor.{Probe, unavailable, busy}
use lo_ra_ham_daemon.RadioCad.{
  Levels, Chip, Radio, Gate, Result, is_lora, quiesce_and_check_rx, active_probe, probe_passive,
  try_probe, probe, is_usable, is_open, after_quiesce, with_chip, with_status, probe_unavailable,
}

if-elim {ℓ κ} :
    {A : Type ℓ} (P : A → Type κ) (b : Bool) {x y : A} → P x → P y → P (if b then x else y)
if-elim P true px py = px
if-elim P false px py = py

mode-cases : (mode : RadioMode) → (mode ≡ lora) ⊎ (is_lora mode ≡ false)
mode-cases lora = inl refl
mode-cases fsk = inr refl

module _ (levels : Levels) {D : Type 0} (chip : Chip levels.Level D)
    (named : ℤ → Option Probe) where
  -- What the radio promises about a packet in it: stopping the receiver, asking and reading the RSSI
  -- keep the packet, and a radio that has been stopped tells of it. Reading the RSSI of the last packet does so in
  -- LoRa mode only; in FSK it starts the receiver.
  pub record KeepsPacket (Holds Lora Stopped : D → Type 0) : Type 0 where
    pub standby_keeps : (d : D) → Holds d → Holds (chip.standby d).1
    pub asking_keeps : (d : D) → Holds d → Holds (chip.rx_done_pending d).1
    pub standby_stops : (d : D) → (chip.standby d).0 ≡ true → Stopped (chip.standby d).1
    pub asking_tells : (d : D) → Stopped d → Holds d → (chip.rx_done_pending d).0 ≡ true
    pub rssi_keeps : (d : D) → Holds d → Holds (chip.rssi_probe d).1
    pub last_rssi_keeps : (d : D) → Lora d → Holds d → Holds (chip.get_rssi d).1

  -- The packet is still there, no scan has run, and the flag for the reader is not taken away.
  pub record IsSpared (Holds : D → Type 0) (r : Radio levels.Level D)
      (p : Result levels.Level × Radio levels.Level D) : Type 0 where
    pub holds : Holds p.1.chip
    pub no_scan : p.0.scan_ran ≡ false
    pub flag : r.received ≡ true → p.1.received ≡ true

  module _ (Holds Lora Stopped : D → Type 0) (k : KeepsPacket Holds Lora Stopped) where
    quiesce_finds :
        (r : Radio levels.Level D)
        → Holds r.chip
        → let q = quiesce_and_check_rx levels chip named r in
          (b : Bool) × (q.0 ≡ some b) × Holds q.1.chip × (r.received ≡ true → q.1.received ≡ true)
    unfolding quiesce_and_check_rx
    quiesce_finds r h =
        let stopped = chip.standby r.chip in
        let kept = k.standby_keeps r.chip h in
        elim (Bool-cases stopped.0) [
          | inr failed ↦ rw failed (false, refl, kept, λ x. x)
          | inl ok ↦ elim (Bool-cases r.received) [
            | inl got ↦ rw (ok, got) (true, refl, kept, λ x. refl)
            | inr not_got ↦
                rw (ok, not_got, k.asking_tells stopped.1 (k.standby_stops r.chip ok) kept)
                  (true, refl, k.asking_keeps stopped.1 kept, λ x. refl)
          ]
        ]

    after_quiesce-IsSpared :
        (r : Radio levels.Level D) (rssi : levels.Level) (q : Option Bool × Radio levels.Level D)
        → (b : Bool) × (q.0 ≡ some b) × Holds q.1.chip × (r.received ≡ true → q.1.received ≡ true)
        → IsSpared Holds r (after_quiesce levels chip named rssi q)
    unfolding after_quiesce
    after_quiesce-IsSpared r rssi (some true, r') (b, e, h, f) = record {
      holds = h;
      no_scan = refl;
      flag = f;
    }
    after_quiesce-IsSpared r rssi (some false, r') (b, e, h, f) = record {
      holds = h;
      no_scan = refl;
      flag = f;
    }
    after_quiesce-IsSpared r rssi (none, r') (b, e, h, f) = absurd (ground (arith, e))

    active_probe-IsSpared :
        (r : Radio levels.Level D)
        → (r.mode ≡ lora → Lora r.chip)
        → Holds r.chip
        → IsSpared Holds r (active_probe levels chip named r)
    unfolding active_probe
    active_probe-IsSpared r m h =
        let live = chip.rssi_probe r.chip in
        let same = λ (d : D). with_chip levels chip named d r in
        let run = active_probe levels chip named r in
        let spared = IsSpared Holds r in
        let kept : spared (with_status levels chip named busy live.0, same live.1) = record {
          holds = k.rssi_keeps r.chip h;
          no_scan = refl;
          flag = λ x. x;
        } in
        let unread : spared (with_status levels chip named unavailable live.0, same live.1) =
          record { holds = k.rssi_keeps r.chip h; no_scan = refl; flag = λ x. x } in
        elim (Bool-cases r.received) [
          | inl got ↦
              let e : run ≡ (with_status levels chip named busy live.0, same live.1) =
                ground (arith, got) in
              subst spared (sym e) kept
          | inr not_got ↦ elim (Bool-cases r.rearm.rearm_pending) [
            | inl deaf ↦
                let e : run ≡ (probe_unavailable levels chip named, r) =
                  ground (arith, not_got, deaf) in
                subst spared (sym e) (record { holds = h; no_scan = refl; flag = λ x. x })
            | inr armed ↦ elim (mode-cases r.mode) [
              | inr other ↦
                  let e : run ≡ (with_status levels chip named unavailable live.0, same live.1) =
                    ground (arith, not_got, armed, other) in
                  subst spared (sym e) unread
              | inl in_lora ↦
                  let last = chip.get_rssi r.chip in
                  let e : run
                      ≡ after_quiesce levels chip named last.0
                          (quiesce_and_check_rx levels chip named (same last.1)) =
                    ground (arith, not_got, armed, in_lora) in
                  subst spared (sym e) (
                    after_quiesce-IsSpared r last.0
                      (quiesce_and_check_rx levels chip named (same last.1))
                      (quiesce_finds (same last.1) (k.last_rssi_keeps r.chip (m in_lora) h)))
            ]
          ]
        ]

    probe_passive-IsSpared :
        (gate : Gate) (r : Radio levels.Level D)
        → Holds r.chip
        → IsSpared Holds r (probe_passive levels chip named gate r)
    unfolding probe_passive
    probe_passive-IsSpared gate r h =
        let untouched : IsSpared Holds r (probe_unavailable levels chip named, r) = record {
          holds = h;
          no_scan = refl;
          flag = λ x. x;
        } in
        let live = chip.rssi_probe r.chip in
        let run = probe_passive levels chip named gate r in
        let spared = IsSpared Holds r in
        let same = with_chip levels chip named live.1 r in
        elim (Bool-cases (
          is_usable levels chip named r
          && ((is_lora r.mode && not r.rearm.rearm_pending) && is_open gate))) [
            | inr gone ↦
                let e : run ≡ (probe_unavailable levels chip named, r) = ground (arith, gone) in
                subst spared (sym e) untouched
            | inl there ↦
                let e : run.1 ≡ same = ground (arith, there) in
                let n : run.0.scan_ran ≡ false = ground (arith, there) in
                record {
                  holds = subst (λ x. Holds x.chip) (sym e) (k.rssi_keeps r.chip h);
                  no_scan = n;
                  flag = λ x. ap (λ y. y.received) e ∙ x;
                }
          ]

    -- No probe of the channel destroys a packet that the radio has received and the main loop has not
    -- read yet, whatever the mode: the packet is still in the radio, no scan has been run, and the
    -- flag that calls for reading it stays set. This holds of a radio that keeps a packet while it is
    -- stopped or asked for its RSSI (outside FSK for the RSSI of the last packet), and that tells of
    -- the packet once a standby() has succeeded; it need not tell before.
    pub probe-IsSpared :
        (gate : Gate) (r : Radio levels.Level D)
        → (r.mode ≡ lora → Lora r.chip)
        → Holds r.chip
        → IsSpared Holds r (probe levels chip named gate r)
          × IsSpared Holds r (try_probe levels chip named gate r)
    unfolding probe try_probe
    probe-IsSpared gate r m h =
        let untouched : IsSpared Holds r (probe_unavailable levels chip named, r) = record {
          holds = h;
          no_scan = refl;
          flag = λ x. x;
        } in
        let passive = probe_passive-IsSpared gate r h in
        let active = active_probe-IsSpared r m h in
        (
          if-elim (IsSpared Holds r) (not (is_usable levels chip named r)) untouched
              (if-elim (IsSpared Holds r) (not r.scan_available) passive active),
          if-elim (IsSpared Holds r) (not (is_usable levels chip named r)) untouched (
              if-elim (IsSpared Holds r) (not r.scan_available) passive
                (if-elim (IsSpared Holds r) (not (is_open gate)) untouched active)),
        )
