-- ===== src/ClientSlot/Returns.antt =====
-- The loops of a broadcast end.
use lo_ra_ham_daemon.Base.{
  All, Bool-cases, List, [], arith, inl, inr, length, refl, replicate, some, ℕ, ◌+◌, ◌<◌, ◌==◌, ◌∷◌,
  ◌≡◌,
}
use lo_ra_ham_daemon.OutputQueue.{SendResult, Result-cases, append, capacity}
use lo_ra_ham_daemon.OutputQueue.Laws.{append-Fits}
use lo_ra_ham_daemon.OutputQueue.Flush.{answers, flush_fd_returns}
use lo_ra_ham_daemon.ClientSlot.{
  ClientSlot, has_client, flush_output, reset_output, close, broadcast_slot, broadcast_loop,
  broadcast_bytes_queued,
}
use lo_ra_ham_daemon.ClientSlot.Slot.{IsSlot}

-- More calls of send() that are not interrupted than a queue holds bytes
abbrev pub Answers : List SendResult → Type 0
Answers script = capacity < answers script

flush_output_returns :
    (script : List SendResult) (slot : ClientSlot)
    → length slot.output.pending < answers script
    → (o : List ℕ × ClientSlot) × (flush_output script slot ≡ some o)
unfolding flush_output
flush_output_returns script slot h = elim (Bool-cases (has_client slot)) [
  | inl on ↦
      let (f, e) = flush_fd_returns script slot.output h in
      elim (Result-cases (f.result)) [
        | inl (n, o) ↦ ((f.wire, record slot { output = f.queue }), ground (arith, on, e, o))
        | inr (x, o) ↦
            ((f.wire, close (record slot { output = f.queue })), ground (arith, on, e, o))
      ]
  | inr off ↦ (([], reset_output slot), ground (arith, off))
]

broadcast_slot_returns :
    (script : List SendResult) (buf : List ℕ) (slot : ClientSlot)
    → Answers script
    → IsSlot slot
    → (o : List ℕ × ClientSlot) × (broadcast_slot script buf slot ≡ some o)
unfolding broadcast_slot
broadcast_slot_returns script buf slot h v = elim (Bool-cases (has_client slot)) [
  | inl on ↦
      let added = append slot.output (some buf) (length buf) in
      elim (Result-cases added.0) [
        | inl (n, o) ↦
            let fits = append-Fits slot.output (some buf) (length buf) v.output_fits in
            let (r, e) =
              flush_output_returns script (record slot { output = added.1 })
                (omega (arith, fits, h)) in
            (r, ground (arith, on, o, e))
        | inr (x, o) ↦ (([], close slot), ground (arith, on, o))
      ]
  | inr off ↦ (([], reset_output slot), ground (arith, off))
]

broadcast_loop_returns :
    (script : ℕ → List SendResult) (i : ℕ) (buf : List ℕ) (slots : List ClientSlot)
    → ((j : ℕ) → Answers (script j))
    → All IsSlot slots
    → (o : List (List ℕ) × List ClientSlot) × (broadcast_loop script i buf slots ≡ some o)
unfolding broadcast_loop
broadcast_loop_returns script i buf [] h v = (([], []), refl)
broadcast_loop_returns script i buf (slot ∷ slots) h (v, vs) =
    let (r, e) = broadcast_slot_returns (script i) buf slot (h i) v in
    let (rs, es) = broadcast_loop_returns script (i + 1) buf slots h vs in
    ((r.0 ∷ rs.0, r.1 ∷ rs.1), ground (arith, e, es))

-- A broadcast to slots in order returns, if each socket answers more often than a queue holds bytes.
pub broadcast_returns :
    (script : ℕ → List SendResult) (buf : List ℕ) (slots : List ClientSlot)
    → ((j : ℕ) → Answers (script j))
    → All IsSlot slots
    → (o : List (List ℕ) × List ClientSlot) × (broadcast_bytes_queued script buf slots ≡ some o)
unfolding broadcast_bytes_queued
broadcast_returns script buf slots h v = elim (Bool-cases (length buf == 0)) [
  | inl z ↦ ((replicate (length slots) [], slots), rw z refl)
  | inr n ↦ let (o, e) = broadcast_loop_returns script 0 buf slots h v in (o, ground (arith, n, e))
]
