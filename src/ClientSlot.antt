-- ===== src/ClientSlot.antt =====
-- loraham_daemon/client_slot.cpp: one connected client, with its output queue and line buffer, and
-- the table of them. A closed slot has no fd. The generation is a uint32_t that skips 0; it tells
-- whether the client that sent a job is still the one in the slot. What send() answers on an fd is
-- the environment: a function from the slot's index to the script of its calls.
pub mod Generation
pub mod Slot
pub mod Broadcast
pub mod Returns
pub mod Invariant
mod Tests
use lo_ra_ham_daemon.Base.{
  Bool, List, Option, [], false, if◌then◌else◌, length, none, not, replicate, some, true, ℕ, ◌%◌,
  ◌+◌, ◌==◌, ◌^◌, ◌∷◌,
}
use lo_ra_ham_daemon.OutputQueue.{
  OutputQueue, SendResult, Result, ok, err, Flushed, append, flush_fd,
}
use lo_ra_ham_daemon.OutputQueue as Output
use lo_ra_ham_daemon.ConfigStream.{ConfigStream}
use lo_ra_ham_daemon.ConfigStream as Stream

pub record ClientSlot : Type 0 where
  pub fd : Option ℕ
  pub output : OutputQueue
  pub stream : ConfigStream
  pub generation : ℕ

unfoldable pub next_generation : ℕ → ℕ
next_generation generation = let next = (generation + 1) % 2 ^ 32 in if next == 0 then 1 else next

abbrev pub init : ClientSlot
init = record { fd = none; output = Output.init; stream = Stream.init; generation = 1 }

abbrev pub init_all : ℕ → List ClientSlot
init_all count = replicate count init

abbrev pub has_client : ClientSlot → Bool
has_client slot = elim (slot.fd) [ none ↦ false | some _ ↦ true ]

unfoldable pub set_fd : ClientSlot → ℕ → ClientSlot
set_fd slot fd = record {
  fd = some fd;
  output = Output.init;
  stream = Stream.init;
  generation = next_generation slot.generation;
}

unfoldable pub reset_output : ClientSlot → ClientSlot
reset_output slot = record slot { output = Output.init }

unfoldable pub close : ClientSlot → ClientSlot
close slot = record {
  fd = none;
  output = Output.init;
  stream = Stream.init;
  generation = next_generation slot.generation;
}

unfoldable pub close_all : List ClientSlot → List ClientSlot
close_all [] = []
close_all (slot ∷ slots) = close slot ∷ close_all slots

-- The flag is the return value; the first free slot takes the connection.
unfoldable pub add : List ClientSlot → ℕ → Bool × List ClientSlot
add [] fd = (false, [])
add (slot ∷ slots) fd =
    let rest = add slots fd in
    if not (has_client slot) then (true, set_fd slot fd ∷ slots) else (rest.0, slot ∷ rest.1)

-- What accept() and fcntl() answer: the new fd, whether it could be made nonblocking.
pub data Accept : Type 0 where
  again : Accept
  failed : Accept
  connected : ℕ → Bool → Accept

-- The fd that is taken on, and the fd that is closed again.
unfoldable pub accept_with_output : Accept → List ClientSlot → Option ℕ × Option ℕ × List ClientSlot
accept_with_output again slots = (none, none, slots)
accept_with_output failed slots = (none, none, slots)
accept_with_output (connected fd nonblocking) slots =
    if not nonblocking
    then (none, some fd, slots)
    else (if not (add slots fd).0
        then (none, some fd, (add slots fd).1)
        else (some fd, none, (add slots fd).1))

-- The bytes that went out on the fd come with the slot. A script that ends while the loop in
-- flush_fd still runs is none.
unfoldable pub flush_output : List SendResult → ClientSlot → Option (List ℕ × ClientSlot)
flush_output script slot =
    if not (has_client slot)
    then some ([], reset_output slot)
    else elim (flush_fd script slot.output) [
      | none ↦ none
      | some f ↦ elim (f.result) [
        | ok _ ↦ some (f.wire, record slot { output = f.queue })
        | err _ ↦ some (f.wire, close (record slot { output = f.queue }))
      ]
    ]

-- One round of the loop in `broadcast_bytes_queued`.
unfoldable pub broadcast_slot : List SendResult → List ℕ → ClientSlot → Option (List ℕ × ClientSlot)
broadcast_slot script buf slot =
    if not (has_client slot)
    then some ([], reset_output slot)
    else let (taken, output) = append slot.output (some buf) (length buf) in
      elim taken [
        | err _ ↦ some ([], close slot)
        | ok _ ↦ flush_output script (record slot { output = output })
      ]

-- What went out to each of the slots, and the slots.
unfoldable pub broadcast_loop :
    (ℕ → List SendResult) → ℕ → List ℕ → List ClientSlot → Option (List (List ℕ) × List ClientSlot)
broadcast_loop script i buf [] = some ([], [])
broadcast_loop script i buf (slot ∷ slots) =
    let rest = broadcast_loop script (i + 1) buf slots in
    elim (broadcast_slot (script i) buf slot) [
      | none ↦ none
      | some (wire, slot') ↦ elim rest [
        | none ↦ none
        | some (wires, slots') ↦ some (wire ∷ wires, slot' ∷ slots')
      ]
    ]

unfoldable pub broadcast_bytes_queued :
    (ℕ → List SendResult) → List ℕ → List ClientSlot → Option (List (List ℕ) × List ClientSlot)
broadcast_bytes_queued script buf slots =
    if length buf == 0
    then some (replicate (length slots) [], slots)
    else broadcast_loop script 0 buf slots

unfoldable pub has_clients : List ClientSlot → Bool
has_clients [] = false
has_clients (slot ∷ slots) = if has_client slot then true else has_clients slots
