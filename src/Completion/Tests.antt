-- ===== src/Completion/Tests.antt =====
-- A result for the client in slot 1 of a table of two.
use lo_ra_ham_daemon.Base.{All, List, [], arith, inr, refl, some, ℕ, ◌∷◌, ◌≡◌}
use lo_ra_ham_daemon.Frame.{encode_tx_result, encode_header, type_payload_len_valid}
use lo_ra_ham_daemon.TxOutcome.{TxOutcome, TxResult}
use lo_ra_ham_daemon.TxJob.{JobResult}
use lo_ra_ham_daemon.OutputQueue.{
  SendResult, sent, would_block, append, flush_fd, flush_loop, consume,
}
use lo_ra_ham_daemon.ClientSlot.{ClientSlot, init, set_fd, next_generation, flush_output}
use lo_ra_ham_daemon.ClientSlot.Slot.{IsSlot, set_fd-IsSlot}
use lo_ra_ham_daemon.ClientSlot.Invariant.{init_all-IsSlot}
use lo_ra_ham_daemon.Completion.{
  delivered, encode_frame, deliver_frame, deliver_to_client, deliver_to_slot,
}
use lo_ra_ham_daemon.Completion.Routing.{
  Outcome, HasArrived, frame_of, deliver_to_slot-Outcome, deliver_to_slot_arrives,
}

abbrev done : JobResult
done = record {
  seq = 300;
  flags = 1;
  outcome = TxOutcome.ok;
  tx_result = TxResult.ok;
  framed_status = 0;
  completion_slot = some 1;
  completion_generation = 2;
}

abbrev sender : ClientSlot
unfolding set_fd next_generation
sender = set_fd init 5

abbrev script : List SendResult
script = sent 3 ∷ would_block ∷ []

in_order : All IsSlot (init ∷ sender ∷ [])
unfolding sender
in_order = ((init_all-IsSlot 1).0, (set_fd-IsSlot init 5, tt))

abbrev waiting : ClientSlot
unfolding sender
waiting = record sender { output = record { pending = 0 ∷ 1 ∷ 44 ∷ 1 ∷ [] } }

deliver_to_slot-Outcome_example :
    Outcome script done init (init ∷ sender ∷ []) delivered (4 ∷ 4 ∷ 0 ∷ []) (init ∷ waiting ∷ [])
unfolding sender waiting deliver_to_slot deliver_to_client deliver_frame encode_frame
    encode_tx_result encode_header type_payload_len_valid flush_output append flush_fd flush_loop
    consume
deliver_to_slot-Outcome_example =
    deliver_to_slot-Outcome script init done (init ∷ sender ∷ []) in_order refl

abbrev patient : List SendResult
patient = sent 1 ∷ sent 1 ∷ sent 1 ∷ sent 1 ∷ sent 1 ∷ sent 1 ∷ sent 1 ∷ sent 1 ∷ []

deliver_to_slot_arrives_example :
    (wire : List ℕ) × (slot' : ClientSlot) × (deliver_to_slot patient init done (init ∷ sender ∷ [])
      ≡ some (delivered, wire, init ∷ slot' ∷ []))
    × HasArrived (frame_of done) sender wire slot'
unfolding sender
deliver_to_slot_arrives_example =
    deliver_to_slot_arrives patient init done (init ∷ sender ∷ []) 1 refl (omega arith)
      (omega arith) in_order.1.0 refl (inr refl) (omega arith) (omega arith) refl
