-- ===== src/Completion.antt =====
-- loraham_daemon/daemon_tx_completion.cpp: the results on their way back from the worker's thread
-- to the clients. Each queue operation runs under the queue's lock, so it is one step. `d` is what
-- the array holds at first.
pub mod Newest
pub mod Routing
mod Tests
use lo_ra_ham_daemon.Base.{
  List, Option, [], get_or, if◌then◌else◌, leb, length, none, not, replicate, set, some, ℕ, ◌%◌,
  ◌&&◌, ◌+◌, ◌-◌, ◌==◌,
}
use lo_ra_ham_daemon.Frame.{encode_tx_result}
use lo_ra_ham_daemon.TxJob.{JobResult}
use lo_ra_ham_daemon.OutputQueue.{SendResult, Result, ok, err, append}
use lo_ra_ham_daemon.ClientSlot.{ClientSlot, has_client, close, flush_output}

abbrev pub capacity : ℕ
capacity = 16

pub record CompletionQueue : Type 0 where
  pub entries : List JobResult
  pub head : ℕ
  pub count : ℕ
  pub dropped : ℕ

abbrev pub init : JobResult → CompletionQueue
init d = record { entries = replicate capacity d; head = 0; count = 0; dropped = 0 }

-- A full queue loses its oldest entry first.
unfoldable pub make_room : CompletionQueue → CompletionQueue
make_room q =
    if leb capacity q.count
    then record q { head = (q.head + 1) % capacity; count = q.count - 1; dropped = q.dropped + 1 }
    else q

unfoldable pub push : CompletionQueue → JobResult → CompletionQueue
unfolding make_room
push q result =
    let r = make_room q in
    record r { entries = set r.entries ((r.head + r.count) % capacity) result; count = r.count + 1 }

unfoldable pub pop : JobResult → CompletionQueue → Option (JobResult × CompletionQueue)
pop d q =
    if q.count == 0
    then none
    else some (
      get_or q.entries q.head d,
      record q { head = (q.head + 1) % capacity; count = q.count - 1 },
    )

-- The seven bytes of the frame are all written; what they hold before does not matter.
unfoldable pub encode_frame : JobResult → Option (List ℕ)
encode_frame result = encode_tx_result (replicate 7 0) result.framed_status result.flags result.seq

pub data Delivery : Type 0 where
  failed nobody delivered stale : Delivery

-- The end of `deliver_to_slot`, for the slot that the job came from: what is returned, the bytes
-- that went out, and the slot.
unfoldable pub deliver_frame :
    List SendResult → List ℕ → ClientSlot → Option (Delivery × List ℕ × ClientSlot)
deliver_frame script frame slot =
    let (taken, output) = append slot.output (some frame) (length frame) in
    elim taken [
      | err _ ↦ some (failed, [], close slot)
      | ok _ ↦ elim (flush_output script (record slot { output = output })) [
        | none ↦ none
        | some (wire, slot') ↦ some (delivered, wire, slot')
      ]
    ]

unfoldable pub deliver_to_client :
    List SendResult → JobResult → ClientSlot → Option (Delivery × List ℕ × ClientSlot)
deliver_to_client script result slot =
    let checked = not (result.completion_generation == 0) in
    if not (has_client slot)
    then some (nobody, [], slot)
    else if checked && not (slot.generation == result.completion_generation)
    then some (stale, [], slot)
    else elim (encode_frame result) [
      | none ↦ some (failed, [], slot)
      | some frame ↦ deliver_frame script frame slot
    ]

-- `vacant` is what an index outside the table would read; that is tested first.
unfoldable pub deliver_to_slot :
    List SendResult
    → ClientSlot
    → JobResult
    → List ClientSlot
    → Option (Delivery × List ℕ × List ClientSlot)
deliver_to_slot script vacant result slots = elim (result.completion_slot) [
  | none ↦ if length slots == 0 then some (failed, [], slots) else some (nobody, [], slots)
  | some idx ↦
      if length slots == 0
      then some (failed, [], slots)
      else if leb (length slots) idx
      then some (nobody, [], slots)
      else elim (deliver_to_client script result (get_or slots idx vacant)) [
        | none ↦ none
        | some (code, wire, slot) ↦ some (code, wire, set slots idx slot)
      ]
]
