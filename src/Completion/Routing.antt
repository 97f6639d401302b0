-- ===== src/Completion/Routing.antt =====
-- A result reaches the client that sent the job, and no other.
use lo_ra_ham_daemon.Base.{
  All, All-get_or_in, Bool-cases, List, Option-cases, [], ap, arith, false, get_or, inl, inr, leb,
  length, length-append, none, not, refl, replicate, set, set-get_or_self, some, sym, true, ℕ, ◌%◌,
  ◌&&◌, ◌++◌, ◌+◌, ◌/◌, ◌<◌, ◌==◌, ◌∙◌, ◌∷◌, ◌≡◌, ◌≢◌, ◌≤◌, ◌⊎◌,
}
use mathlib.Core.Path.{subst}
use native.Mathlib.Decide.{dec_lt}
use lo_ra_ham_daemon.Frame.Payload.{encode_tx_result_lem}
use lo_ra_ham_daemon.TxJob.{JobResult}
use lo_ra_ham_daemon.OutputQueue as Output
use lo_ra_ham_daemon.OutputQueue.{
  SendResult, Result, Result-cases, ok, err, append, Flushed, flush_fd,
}
use lo_ra_ham_daemon.OutputQueue.Laws.{append_cases}
use lo_ra_ham_daemon.OutputQueue.Flush.{answers, fails, flush_fd_returns}
use lo_ra_ham_daemon.ClientSlot.{ClientSlot, has_client, close, flush_output}
use lo_ra_ham_daemon.ClientSlot.Slot.{IsSlot}
use lo_ra_ham_daemon.ClientSlot.Broadcast.{Served, flush_output-Served}
use lo_ra_ham_daemon.Completion.{
  Delivery, delivered, encode_frame, deliver_frame, deliver_to_client, deliver_to_slot,
}

-- The frame of a result, byte by byte.
abbrev pub frame_of : JobResult → List ℕ
frame_of r = 4 ∷ 4 ∷ 0 ∷ r.framed_status ∷ r.flags ∷ r.seq % 256 ∷ r.seq / 256 % 256 ∷ []

encode_frame_cases :
    (r : JobResult)
    → ((r.framed_status ≤ 6) × (encode_frame r ≡ some (frame_of r))) ⊎ (encode_frame r ≡ none)
unfolding encode_frame
encode_frame_cases r = elim (Option-cases (encode_frame r)) [
  | inl e ↦ inr e
  | inr (out, e) ↦
      let (status, _, bytes) =
        (encode_tx_result_lem (replicate 7 0) r.framed_status r.flags r.seq out).0 e in
      inl (status, e ∙ ap some bytes)
]

-- The client in the slot is the one that sent the job, as far as the result can tell.
abbrev pub IsSender : JobResult → ClientSlot → Type 0
IsSender r slot = (r.completion_generation ≡ 0) ⊎ (slot.generation ≡ r.completion_generation)

deliver_frame-Served :
    (script : List SendResult) (frame : List ℕ) (slot : ClientSlot) {code : Delivery}
    {wire : List ℕ} {slot' : ClientSlot}
    → IsSlot slot
    → has_client slot ≡ true
    → deliver_frame script frame slot ≡ some (code, wire, slot')
    → Served script frame slot wire slot'
unfolding deliver_frame
deliver_frame-Served script frame slot {code} {wire} {slot'} v h e =
    elim (Bool-cases (leb (length slot.output.pending + length frame) Output.capacity)) [
      | inr over ↦
          Served.overflowed h (ground arith)
            (ground (arith, append_cases slot.output frame v.output_fits))
            (ground (arith, append_cases slot.output frame v.output_fits))
      | inl fits ↦
          let output : Output.OutputQueue = record { pending = slot.output.pending ++ frame } in
          elim (Option-cases (flush_output script (record slot { output = output }))) [
            | inl n ↦ absurd (ground (arith, n, append_cases slot.output frame v.output_fits))
            | inr ((w, s), f) ↦
                flush_output-Served frame script slot output wire slot' h (ground arith) refl
                  (ground (arith, f, append_cases slot.output frame v.output_fits))
          ]
    ]

deliver_to_client_cases :
    (script : List SendResult) (r : JobResult) (slot : ClientSlot) {code : Delivery} {wire : List ℕ}
    {slot' : ClientSlot}
    → IsSlot slot
    → deliver_to_client script r slot ≡ some (code, wire, slot')
    → ((code ≢ delivered) × (wire ≡ []) × (slot' ≡ slot))
      ⊎ ((has_client slot ≡ true) × IsSender r slot × Served script (frame_of r) slot wire slot')
unfolding deliver_to_client
deliver_to_client_cases script r slot {code} {wire} {slot'} v e =
    elim (Bool-cases (has_client slot)) [
      | inr free ↦ inl (λ c. ground arith, ground arith, ground arith)
      | inl taken ↦
          elim (Bool-cases (
            not (r.completion_generation == 0)
            && not (slot.generation == r.completion_generation))) [
              | inl old ↦ inl (λ c. ground arith, ground arith, ground arith)
              | inr fresh ↦ elim (encode_frame_cases r) [
                | inr n ↦ inl (λ c. ground arith, ground arith, ground arith)
                | inl (_, f) ↦
                    let own : IsSender r slot = ground arith in
                    let framed : deliver_frame script (frame_of r) slot ≡ some (code, wire, slot') =
                      ground arith in
                    inr (taken, own, deliver_frame-Served script (frame_of r) slot v taken framed)
              ]
            ]
    ]

-- What a delivery may come to.
pub data Outcome (script : List SendResult) (r : JobResult) (vacant : ClientSlot)
    (slots : List ClientSlot) (code : Delivery) (wire : List ℕ) (slots' : List ClientSlot)
    : Type 0 where
  untouched :
      code ≢ delivered → wire ≡ [] → slots' ≡ slots → Outcome script r vacant slots code wire slots'
  reached :
      (idx : ℕ)
      → r.completion_slot ≡ some idx
      → idx < length slots
      → has_client (get_or slots idx vacant) ≡ true
      → IsSender r (get_or slots idx vacant)
      → (slot' : ClientSlot) → Served script (frame_of r) (get_or slots idx vacant) wire slot'
      → slots' ≡ set slots idx slot'
      → Outcome script r vacant slots code wire slots'

-- To a table in order, a delivery that returns and puts a byte on a socket or changes the table
-- has found a client at the index that the job came with, of the generation that the job came with
-- (unless that is 0), and serves this client with the result's frame, as a broadcast would; all
-- other clients stay as they are. In all other cases nothing is sent or changed and the result is
-- not reported as delivered.
pub deliver_to_slot-Outcome :
    (script : List SendResult) (vacant : ClientSlot) (r : JobResult) (slots : List ClientSlot)
    {code : Delivery} {wire : List ℕ} {slots' : List ClientSlot}
    → All IsSlot slots
    → deliver_to_slot script vacant r slots ≡ some (code, wire, slots')
    → Outcome script r vacant slots code wire slots'
unfolding deliver_to_slot deliver_to_client
deliver_to_slot-Outcome script vacant r slots {code} {wire} {slots'} v e =
    elim (Option-cases (r.completion_slot)) [
      | inl n ↦ Outcome.untouched (λ c. ground arith) (ground arith) (ground arith)
      | inr (idx, i) ↦ elim (dec_lt idx (length slots)) [
        | no out ↦ Outcome.untouched (λ c. ground arith) (ground arith) (ground arith)
        | yes h ↦
            let slot = get_or slots idx vacant in
            elim (Option-cases (deliver_to_client script r slot)) [
              | inl n ↦ absurd (ground arith)
              | inr ((k, w, s), f) ↦
                  let c : k ≡ code = ground arith in
                  let p : w ≡ wire = ground arith in
                  let q : set slots idx s ≡ slots' = ground arith in
                  elim (deliver_to_client_cases script r slot
                    (All-get_or_in IsSlot slots idx vacant v h) f) [
                      | inl (not_delivered, nothing, same) ↦
                          Outcome.untouched (λ d. not_delivered (c ∙ d)) (sym p ∙ nothing)
                            (sym q ∙ ap (set slots idx) same ∙ set-get_or_self slots idx vacant h)
                      | inr (taken, own, served) ↦
                          Outcome.reached idx i h taken own s
                            (subst (λ w. Served script (frame_of r) slot w s) p served) (sym q)
                    ]
            ]
      ]
    ]

flush_output_returns :
    (script : List SendResult) (slot : ClientSlot)
    → has_client slot ≡ true
    → length slot.output.pending < answers script
    → (wire : List ℕ) × (slot' : ClientSlot) × (flush_output script slot ≡ some (wire, slot'))
unfolding flush_output
flush_output_returns script slot h calls =
    let (f, e) = flush_fd_returns script slot.output calls in
    elim (Result-cases (f.result)) [
      | inl (n, o) ↦ (f.wire, record slot { output = f.queue }, ground arith)
      | inr (x, o) ↦ (f.wire, close (record slot { output = f.queue }), ground arith)
    ]

-- The client keeps its connection, and the frame is behind all that waited for it before, on the
-- socket or in the queue.
pub record HasArrived (frame : List ℕ) (slot : ClientSlot) (wire : List ℕ) (slot' : ClientSlot)
    : Type 0 where
  pub bytes : wire ++ slot'.output.pending ≡ slot.output.pending ++ frame
  pub fd : slot'.fd ≡ slot.fd
  pub generation : slot'.generation ≡ slot.generation

Served-HasArrived :
    {script : List SendResult} {frame : List ℕ} {slot : ClientSlot} {wire : List ℕ}
    {slot' : ClientSlot}
    → Served script frame slot wire slot'
    → has_client slot ≡ true
    → length slot.output.pending + length frame ≤ Output.capacity
    → fails script (length slot.output.pending + length frame) ≡ false
    → HasArrived frame slot wire slot'
Served-HasArrived (Served.no_client n w e) h room works = absurd (ground (arith, n, h))
Served-HasArrived (Served.kept t _ _ o f g st) h room works = record {
  bytes = o;
  fd = f;
  generation = g;
}
Served-HasArrived (Served.overflowed t over w e) h room works = absurd (omega (arith, over, room))
Served-HasArrived (Served.lost t _ bad rest w e) h room works = absurd (ground (arith, bad, works))

-- The result does arrive: where the slot of the job has the client of the job and is in order, its
-- queue has room for the frame, the status is at most 6, and send() is called as often as may be
-- needed and does not fail, the delivery returns and reports that it was delivered; the client is
-- still connected, the bytes on its socket and those that wait are those that waited before, then
-- the result's frame; and no other slot has changed.
pub deliver_to_slot_arrives :
    (script : List SendResult) (vacant : ClientSlot) (r : JobResult) (slots : List ClientSlot)
    (idx : ℕ)
    → r.completion_slot ≡ some idx
    → idx < length slots
    → r.framed_status ≤ 6
    → let slot = get_or slots idx vacant in
      IsSlot slot
      → has_client slot ≡ true
      → IsSender r slot
      → length slot.output.pending + 7 ≤ Output.capacity
      → length slot.output.pending + 7 < answers script
      → fails script (length slot.output.pending + 7) ≡ false
      → (wire : List ℕ) × (slot' : ClientSlot) × (deliver_to_slot script vacant r slots
          ≡ some (delivered, wire, set slots idx slot'))
        × HasArrived (frame_of r) slot wire slot'
unfolding deliver_to_slot deliver_to_client deliver_frame encode_frame
deliver_to_slot_arrives script vacant r slots idx i h status v taken own room calls works =
    let slot = get_or slots idx vacant in
    let all : List ℕ = slot.output.pending ++ frame_of r in
    let n : length all ≡ length slot.output.pending + 7 =
      length-append slot.output.pending (frame_of r) in
    let filled = record slot { output = record { pending = all } } in
    let (wire, slot', e) = flush_output_returns script filled taken (omega (arith, n)) in
    let framed : encode_frame r ≡ some (frame_of r) =
      (encode_tx_result_lem (replicate 7 0) r.framed_status r.flags r.seq (frame_of r)).1
        (status, omega arith, refl) in
    let fits : append slot.output (some (frame_of r)) 7 ≡ (ok tt, record { pending = all }) =
      ground (arith, append_cases slot.output (frame_of r) v.output_fits) in
    let served =
      flush_output-Served (frame_of r) script slot (record { pending = all }) wire slot' taken room
        refl e in
    (wire, slot', ground arith, Served-HasArrived served taken room works)
