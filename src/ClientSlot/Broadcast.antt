-- ===== src/ClientSlot/Broadcast.antt =====
-- A broadcast serves each client by itself.
use lo_ra_ham_daemon.Base.{
  All, Bool-cases, List, Option-cases, [], ap, arith, false, inl, inr, leb, length, length-append,
  refl, some, sym, true, ℕ, ◌++◌, ◌+◌, ◌<◌, ◌∙◌, ◌∷◌, ◌≡◌, ◌≤◌,
}
use lo_ra_ham_daemon.OutputQueue.{OutputQueue, SendResult, Result-cases, flush_fd, capacity}
use lo_ra_ham_daemon.OutputQueue.Laws.{append_cases}
use lo_ra_ham_daemon.OutputQueue.Flush.{fails, is_err, flush_fd_keeps, flush_fd-fails}
use lo_ra_ham_daemon.ClientSlot.{
  ClientSlot, has_client, reset_output, close, flush_output, broadcast_slot, broadcast_loop,
  broadcast_bytes_queued,
}
use lo_ra_ham_daemon.ClientSlot.Slot.{IsSlot}

-- What a broadcast of `buf` to a slot comes to, with the bytes that it put on the socket.
pub data Served (script : List SendResult) (buf : List ℕ) (slot : ClientSlot) (wire : List ℕ)
    (slot' : ClientSlot) : Type 0 where
  no_client :
      has_client slot ≡ false
      → wire ≡ []
      → slot' ≡ reset_output slot
      → Served script buf slot wire slot'
  kept :
      has_client slot ≡ true
      → length slot.output.pending + length buf ≤ capacity
      → fails script (length slot.output.pending + length buf) ≡ false
      → wire ++ slot'.output.pending ≡ slot.output.pending ++ buf
      → slot'.fd ≡ slot.fd
      → slot'.generation ≡ slot.generation
      → slot'.stream ≡ slot.stream
      → Served script buf slot wire slot'
  overflowed :
      has_client slot ≡ true
      → capacity < length slot.output.pending + length buf
      → wire ≡ []
      → slot' ≡ close slot
      → Served script buf slot wire slot'
  lost :
      has_client slot ≡ true
      → length slot.output.pending + length buf ≤ capacity
      → fails script (length slot.output.pending + length buf) ≡ true
      → (rest : List ℕ) → wire ++ rest ≡ slot.output.pending ++ buf
      → slot' ≡ close slot
      → Served script buf slot wire slot'

pub flush_output-Served :
    (buf : List ℕ) (script : List SendResult) (slot : ClientSlot) (output : OutputQueue)
    (wire : List ℕ) (slot' : ClientSlot)
    → has_client slot ≡ true
    → length slot.output.pending + length buf ≤ capacity
    → output.pending ≡ slot.output.pending ++ buf
    → flush_output script (record slot { output = output }) ≡ some (wire, slot')
    → Served script buf slot wire slot'
unfolding flush_output close
flush_output-Served buf script slot output wire slot' h room p e =
    elim (Option-cases (flush_fd script output)) [
      | inl n ↦ absurd (ground (arith, n, h))
      | inr (f, g) ↦
          let size : length output.pending ≡ length slot.output.pending + length buf =
            ap length p ∙ length-append slot.output.pending buf in
          let told : is_err f.result ≡ fails script (length slot.output.pending + length buf) =
            flush_fd-fails script output f g ∙ ap (fails script) size in
          elim (Result-cases (f.result)) [
            | inl (n, o) ↦
                let wires : f.wire ≡ wire = ground (arith, g, o, h) in
                let slots : record slot { output = f.queue } ≡ slot' = ground (arith, g, o, h) in
                Served.kept h room (sym told ∙ ap is_err o)
                  (ground (arith, wires, slots, flush_fd_keeps script output f g))
                  (ap (λ t. t.fd) (sym slots)) (ap (λ t. t.generation) (sym slots))
                  (ap (λ t. t.stream) (sym slots))
            | inr (x, o) ↦
                let wires : f.wire ≡ wire = ground (arith, g, o, h) in
                let slots : close slot ≡ slot' = ground (arith, g, o, h) in
                Served.lost h room (sym told ∙ ap is_err o) (f.queue.pending)
                  (ground (arith, wires, flush_fd_keeps script output f g)) (sym slots)
          ]
    ]

broadcast_slot-Served :
    (script : List SendResult) (buf : List ℕ) (slot : ClientSlot) (wire : List ℕ)
    (slot' : ClientSlot)
    → IsSlot slot
    → broadcast_slot script buf slot ≡ some (wire, slot')
    → Served script buf slot wire slot'
unfolding broadcast_slot
broadcast_slot-Served script buf slot wire slot' v e = elim (Bool-cases (has_client slot)) [
  | inr free ↦ Served.no_client free (ground arith) (ground arith)
  | inl taken ↦ elim (Bool-cases (leb (length slot.output.pending + length buf) capacity)) [
    | inl fits ↦
        flush_output-Served buf script slot (record { pending = slot.output.pending ++ buf }) wire
          slot' taken (ground arith) refl
          (ground (arith, append_cases slot.output buf v.output_fits))
    | inr over ↦
        Served.overflowed taken (ground arith)
          (ground (arith, append_cases slot.output buf v.output_fits))
          (ground (arith, append_cases slot.output buf v.output_fits))
  ]
]

-- The same for each slot of the table, in order, with the script of its socket. The first is slot `i`.
abbrev pub AllServed :
    (ℕ → List SendResult) → ℕ → List ℕ → List ClientSlot → List (List ℕ) → List ClientSlot → Type 0
AllServed script i buf [] [] [] = Unit
AllServed script i buf (slot ∷ slots) (wire ∷ wires) (slot' ∷ slots') =
    Served (script i) buf slot wire slot' × AllServed script (i + 1) buf slots wires slots'
AllServed script i buf _ _ _ = ⊥

pub broadcast_loop-Served :
    (script : ℕ → List SendResult) (i : ℕ) (buf : List ℕ) (slots : List ClientSlot)
    (wires : List (List ℕ)) (slots' : List ClientSlot)
    → All IsSlot slots
    → broadcast_loop script i buf slots ≡ some (wires, slots')
    → AllServed script i buf slots wires slots'
unfolding broadcast_loop
broadcast_loop-Served script i buf [] [] [] v e = tt
broadcast_loop-Served script i buf [] (_ ∷ _) _ v e = absurd (ground arith)
broadcast_loop-Served script i buf [] [] (_ ∷ _) v e = absurd (ground arith)
broadcast_loop-Served script i buf (slot ∷ slots) wires slots' (v, vs) e =
    elim (Option-cases (broadcast_slot (script i) buf slot)) [
      | inl n ↦ absurd (ground (arith, n))
      | inr ((wire, slot'), f) ↦ elim (Option-cases (broadcast_loop script (i + 1) buf slots)) [
        | inl n ↦ absurd (ground (arith, f, n))
        | inr ((ws, ss), g) ↦
            let p : wires ≡ wire ∷ ws = ground (arith, f, g) in
            let q : slots' ≡ slot' ∷ ss = ground (arith, f, g) in
            rw (p, q)
              (
                broadcast_slot-Served (script i) buf slot wire slot' v f,
                broadcast_loop-Served script (i + 1) buf slots ws ss vs g,
              )
      ]
    ]

-- A broadcast of some bytes to a table in order, when it has returned and whatever the sockets
-- took of it, has served each slot in one of four ways. A free slot got nothing. A client whose queue
-- has no room for all of the bytes is closed without a byte of them sent. Any other client is kept
-- exactly if no call of send() fails before all is sent or the socket is full (`fails`): it has the
-- same generation, and the bytes on its socket and those that still wait are those that waited
-- before, then the new ones. If a call fails it is closed, and no byte was sent out of order. No client has an effect on another.
pub broadcast_lem :
    (script : ℕ → List SendResult) (buf : List ℕ) (slots : List ClientSlot) (wires : List (List ℕ))
    (slots' : List ClientSlot)
    → All IsSlot slots
    → 0 < length buf
    → broadcast_bytes_queued script buf slots ≡ some (wires, slots')
    → AllServed script 0 buf slots wires slots'
unfolding broadcast_bytes_queued
broadcast_lem script buf slots wires slots' v n e =
    broadcast_loop-Served script 0 buf slots wires slots' v (ground arith)
