-- ===== src/TxStatus/Tests.antt =====
-- Two packets, with a tick while the first one is sent; what is told is collected.
use lo_ra_ham_daemon.Base.{Bool, List, [], arith, false, refl, true, ◌∷◌, ◌≡◌, ◌≤◌}
use lo_ra_ham_daemon.TxStatus.{
  Status, exchange, store, count, next_generation, next_busy, process_tx_status, status_loop,
}
use lo_ra_ham_daemon.TxStatus.Reported.{Reach, process_tx_status-tells}

abbrev collect : Bool → List Bool → List Bool
collect busy log = busy ∷ log

-- The second packet's end is not counted yet.
abbrev status : Status
status = record { tx_busy = false; generation = 3; broadcast_generation = 1 }

status-Reach : Reach collect [] 4 3 status (true ∷ [])
unfolding exchange store count next_generation next_busy process_tx_status status_loop
status-Reach =
    Reach.lowers
      (Reach.counts
        (Reach.raises
          (Reach.counts
            (Reach.lowers
              (Reach.ticks (Reach.counts (Reach.raises Reach.boots refl) (omega arith) refl)) refl)
            (omega arith) refl)
          refl)
        (omega arith) refl)
      refl

process_tx_status-tells_example :
    (process_tx_status collect status (true ∷ []) ≡ (
      record { tx_busy = false; generation = 3; broadcast_generation = 3 },
      true ∷ false ∷ true ∷ [],
    ))
    × (false ≡ false)
    × (3 ≤ 4)
process_tx_status-tells_example =
    process_tx_status-tells collect [] 4 3 status (true ∷ []) status-Reach
