-- ===== src/ClientSlot/Tests.antt =====
-- Small tables at concrete calls.
use lo_ra_ham_daemon.Base.{All, List, [], arith, refl, some, zero, ℕ, ◌∷◌, ◌≡◌}
use lo_ra_ham_daemon.OutputQueue.{
  SendResult, sent, would_block, failed, append, flush_fd, flush_loop, consume,
}
use lo_ra_ham_daemon.ClientSlot.{
  ClientSlot, init, init_all, set_fd, close, close_all, next_generation, Accept, accept_with_output,
  flush_output, reset_output, broadcast_slot, broadcast_loop, broadcast_bytes_queued,
}
use lo_ra_ham_daemon.ClientSlot.Slot.{IsSlot, set_fd-IsSlot}
use lo_ra_ham_daemon.ClientSlot.Broadcast.{AllServed, broadcast_lem}
use lo_ra_ham_daemon.ClientSlot.Invariant.{init_all-IsSlot, table-IsSlot}

abbrev first : ClientSlot
unfolding set_fd next_generation
first = set_fd init 5

abbrev second : ClientSlot
unfolding set_fd next_generation
second = set_fd init 6

abbrev scripts : ℕ → List SendResult
scripts zero = sent 1 ∷ would_block ∷ []
scripts _ = failed ∷ []

abbrev after_broadcast : List ClientSlot
unfolding first second close next_generation
after_broadcast = record first { output = record { pending = 9 ∷ [] } } ∷ init ∷ close second ∷ []

in_order : All IsSlot (first ∷ init ∷ second ∷ [])
unfolding first second
in_order = (set_fd-IsSlot init 5, ((init_all-IsSlot 1).0, (set_fd-IsSlot init 6, tt)))

broadcast_lem_example :
    AllServed scripts 0
      (8 ∷ 9 ∷ [])
      (first ∷ init ∷ second ∷ [])
      ((8 ∷ []) ∷ [] ∷ [] ∷ [])
      after_broadcast
unfolding first second after_broadcast broadcast_bytes_queued broadcast_loop broadcast_slot
    flush_output append flush_fd flush_loop consume reset_output
broadcast_lem_example =
    broadcast_lem scripts (8 ∷ 9 ∷ []) (first ∷ init ∷ second ∷ []) ((8 ∷ []) ∷ [] ∷ [] ∷ [])
      after_broadcast in_order (omega arith) refl

table-IsSlot_example :
    let slots = first ∷ init ∷ second ∷ [] in
    ((count : ℕ) → All IsSlot (init_all count))
    × ((accepted : Accept) → All IsSlot (accept_with_output accepted slots).2)
    × All IsSlot (close_all slots)
    × ((script : ℕ → List SendResult) (buf : List ℕ) (wires : List (List ℕ))
          (slots' : List ClientSlot)
        → broadcast_bytes_queued script buf slots ≡ some (wires, slots')
        → All IsSlot slots')
table-IsSlot_example = table-IsSlot (first ∷ init ∷ second ∷ []) in_order
