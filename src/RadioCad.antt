-- ===== src/RadioCad.antt =====
-- loraham_daemon/radio_cad.cpp and the de-flicker policy in daemon_monitoring.h: whether the channel is
-- busy. The radio's driver and the comparisons of signal levels are interfaces; true is the driver's
-- RADIOLIB_ERR_NONE. The library's own names for scan states are an argument.
pub mod Pending
pub mod Monitor
mod Tests
use lo_ra_ham_daemon.Base.{
  Bool, Option, false, if◌then◌else◌, leb, none, not, some, suc, true, zero, ℕ, ◌&&◌, ◌+◌, ◌||◌,
}
use lo_ra_ham_daemon.Base.Int.{ℤ, pos, negsuc}
use lo_ra_ham_daemon.DataTx.{RadioMode, lora, fsk}
use lo_ra_ham_daemon.TxExecutor.{Probe, unavailable, free, busy}
use lo_ra_ham_daemon.RxRearm.{Rearm, is_ready, note_result}

-- Signal levels in dBm: -200, and the comparisons <= -190, >=, and <= threshold - 3.
pub record Levels : Type 1 where
  pub Level : Type 0
  pub no_reading : Level
  pub is_unusable : Level → Bool
  pub reaches : Level → Level → Bool
  pub is_clear_of : Level → Level → Bool

-- What is called of a RadioDriver.
pub record Chip (L D : Type 0) : Type 0 where
  pub standby : D → Bool × D
  pub rx_done_pending : D → Bool × D
  pub clear_packet_received_action : D → D
  pub set_packet_received_action : D → D
  pub clear_irq : D → D
  pub start_receive : D → Bool × D
  pub scan_channel : D → ℤ × D
  pub rssi_probe : D → L × D
  pub get_rssi : D → L × D

-- The part of the RadioController that probing reads and writes.
pub record Radio (L D : Type 0) : Type 0 where
  pub chip : D
  pub has_driver : Bool
  pub mode : RadioMode
  pub received : Bool
  pub cad_active : Bool
  pub scan_available : Bool
  pub threshold : L
  pub rearm : Rearm
  pub broadcast_active : Bool
  pub free_streak : ℕ

-- What a try finds: a transmission, before and after the lock is taken, and the lock.
pub record Gate : Type 0 where
  pub tx_busy : Bool
  pub locked : Bool
  pub tx_busy_then : Bool

abbrev pub is_open : Gate → Bool
is_open gate = not gate.tx_busy && (gate.locked && not gate.tx_busy_then)

pub record Result (L : Type 0) : Type 0 where
  pub status : Probe
  pub scan_state : ℤ
  pub scan_ran : Bool
  pub rssi : L

-- `named` is what the library's own names for a state say.
unfoldable pub status_from_scan_state : (ℤ → Option Probe) → ℤ → Probe
status_from_scan_state named state = elim (named state) [
  | some status ↦ status
  | none ↦ elim state [ pos zero ↦ free | pos (suc n) ↦ busy | negsuc n ↦ unavailable ]
]

abbrev pub is_lora : RadioMode → Bool
is_lora lora = true
is_lora fsk = false

-- What a tick reports of a change: CAD=1, CAD=0 or nothing. none is a tick without
-- a sample.
pub data Edge : Type 0 where
  rising falling unchanged : Edge

unfoldable pub cad_broadcast_edge : Bool → Bool → Edge
cad_broadcast_edge false true = rising
cad_broadcast_edge true false = falling
cad_broadcast_edge _ _ = unchanged

module _ (levels : Levels) {D : Type 0} (chip : Chip levels.Level D)
    (named : ℤ → Option Probe) where
  open levels use {Level, no_reading, is_unusable, reaches, is_clear_of}

  abbrev pub probe_unavailable : Result Level
  probe_unavailable = record {
    status = unavailable;
    scan_state = pos 0;
    scan_ran = false;
    rssi = no_reading;
  }

  abbrev pub is_usable : Radio Level D → Bool
  is_usable r = r.has_driver && is_ready r.rearm.health

  abbrev pub with_chip : D → Radio Level D → Radio Level D
  with_chip d r = record r { chip = d }

  -- none: the probe may proceed; some: it is abandoned, the flag tells whether for a packet.
  unfoldable pub quiesce_and_check_rx : Radio Level D → Option Bool × Radio Level D
  quiesce_and_check_rx r =
      let stopped = chip.standby r.chip in
      if not stopped.0
      then (some false, with_chip stopped.1 r)
      else if r.received
      then (some true, with_chip stopped.1 r)
      else (let asked = chip.rx_done_pending stopped.1 in
          if asked.0
          then (some true, record r { chip = asked.1; received = true })
          else (none, with_chip asked.1 r))

  unfoldable pub detach_rx_before_probe : Radio Level D → Radio Level D
  detach_rx_before_probe r =
      if not r.has_driver || not (is_lora r.mode)
      then r
      else with_chip (chip.clear_packet_received_action r.chip) r

  unfoldable pub restore_rx_after_probe : Radio Level D → Radio Level D
  restore_rx_after_probe r =
      if not (is_usable r) || not (is_lora r.mode)
      then r
      else (let started =
            chip.start_receive (chip.set_packet_received_action (chip.clear_irq r.chip)) in
          record r { chip = started.1; received = false; rearm = note_result started.0 r.rearm })

  -- The scan of a receiver that has been stopped.
  unfoldable pub scan : Level → Radio Level D → Result Level × Radio Level D
  unfolding detach_rx_before_probe restore_rx_after_probe
  scan rssi r =
      let detached = detach_rx_before_probe (record r { cad_active = true }) in
      let scanned = chip.scan_channel detached.chip in
      (
        record {
          status = status_from_scan_state named scanned.0;
          scan_state = scanned.0;
          scan_ran = true;
          rssi = rssi;
        },
        restore_rx_after_probe (record detached { chip = scanned.1; cad_active = false }),
      )

  abbrev pub with_status : Probe → Level → Result Level
  with_status status rssi = record probe_unavailable { status = status; rssi = rssi }

  unfoldable pub after_quiesce : Level → Option Bool × Radio Level D → Result Level × Radio Level D
  unfolding scan
  after_quiesce rssi (some true, r) = (with_status busy rssi, r)
  after_quiesce rssi (some false, r) = (with_status unavailable rssi, r)
  after_quiesce rssi (none, r) = scan rssi r

  -- Both active probes, behind their locks.
  unfoldable pub active_probe : Radio Level D → Result Level × Radio Level D
  unfolding after_quiesce
  active_probe r =
      let live = chip.rssi_probe r.chip in
      let last = chip.get_rssi r.chip in
      if r.received
      then (with_status busy live.0, with_chip live.1 r)
      else if r.rearm.rearm_pending
      then (probe_unavailable, r)
      else if not (is_lora r.mode)
      then (with_status unavailable live.0, with_chip live.1 r)
      else after_quiesce last.0 (quiesce_and_check_rx (with_chip last.1 r))

  unfoldable pub probe_passive : Gate → Radio Level D → Result Level × Radio Level D
  probe_passive gate r =
      let live = chip.rssi_probe r.chip in
      if not (is_usable r)
      then (probe_unavailable, r)
      else if not (is_lora r.mode && not r.rearm.rearm_pending)
      then (probe_unavailable, r)
      else if not (is_open gate)
      then (probe_unavailable, r)
      else if is_unusable live.0
      then (with_status unavailable live.0, with_chip live.1 r)
      else (
        with_status (if reaches live.0 r.threshold then busy else free) live.0,
        with_chip live.1 r,
      )

  unfoldable pub try_probe : Gate → Radio Level D → Result Level × Radio Level D
  unfolding active_probe probe_passive
  try_probe gate r =
      if not (is_usable r)
      then (probe_unavailable, r)
      else if not r.scan_available
      then probe_passive gate r
      else if not (is_open gate)
      then (probe_unavailable, r)
      else active_probe r

  unfoldable pub probe : Gate → Radio Level D → Result Level × Radio Level D
  unfolding active_probe probe_passive
  probe gate r =
      if not (is_usable r)
      then (probe_unavailable, r)
      else if not r.scan_available
      then probe_passive gate r
      else active_probe r

  -- The published state and the streak of clear samples.
  unfoldable pub cad_next_busy : Level → Level → Bool × ℕ → Bool × ℕ
  cad_next_busy threshold rssi (published, streak) =
      if reaches rssi threshold
      then (true, 0)
      else if not published
      then (false, 0)
      else if is_clear_of rssi threshold
      then (if leb 2 (streak + 1) then (false, 0) else (true, streak + 1))
      else (true, 0)

  unfoldable pub cad_monitor_tick : Gate → Radio Level D → Option Edge × Radio Level D
  unfolding probe_passive
  cad_monitor_tick gate r =
      let p = probe_passive gate r in
      elim p.0.status [
        | unavailable ↦ (none, p.1)
        | _ ↦
            let next = cad_next_busy r.threshold p.0.rssi (r.broadcast_active, r.free_streak) in
            (
              some (cad_broadcast_edge r.broadcast_active next.0),
              record (p.1) { broadcast_active = next.0; free_streak = next.1 },
            )
      ]
