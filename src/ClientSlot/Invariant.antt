-- ===== src/ClientSlot/Invariant.antt =====
-- The table of clients stays in order.
use lo_ra_ham_daemon.Base.{
  All, Bool-cases, List, [], ap, arith, false, inl, inr, length, length-append, refl, some, suc,
  sym, true, zero, ℕ, ◌+◌, ◌==◌, ◌∷◌, ◌≡◌,
}
use mathlib.Core.Path.{subst}
use lo_ra_ham_daemon.OutputQueue.{SendResult}
use lo_ra_ham_daemon.ClientSlot.{
  ClientSlot, has_client, reset_output, close_all, init_all, Accept, again, failed, connected,
  accept_with_output, add, broadcast_bytes_queued,
}
use lo_ra_ham_daemon.ConfigStream.Lines.{IsLine}
use lo_ra_ham_daemon.ClientSlot.Generation.{IsGeneration}
use lo_ra_ham_daemon.ClientSlot.Slot.{IsSlot, blank, set_fd-IsSlot, close-IsSlot}
use lo_ra_ham_daemon.ClientSlot.Broadcast.{Served, AllServed, broadcast_loop-Served}

-- Being served keeps a slot in order.
Served-IsSlot :
    {script : List SendResult} (buf : List ℕ) (slot : ClientSlot) (wire : List ℕ)
    (slot' : ClientSlot)
    → IsSlot slot
    → Served script buf slot wire slot'
    → IsSlot slot'
unfolding reset_output
Served-IsSlot buf slot wire slot' v (Served.no_client h w e) = subst IsSlot (sym e) (record {
  output_fits = omega arith;
  line = v.line;
  generation = v.generation;
  clean = λ n. (refl, (v.clean h).1);
})
Served-IsSlot buf slot wire slot' v (Served.kept h room _ p fd gen stream) = record {
  output_fits = omega (
    arith,
    room,
    ap length p,
    length-append wire slot'.output.pending,
    length-append slot.output.pending buf,
  );
  line = subst (λ t. IsLine t.line) (sym stream) v.line;
  generation = subst IsGeneration (sym gen) v.generation;
  clean = λ n. absurd (ground (arith, fd, h, n));
}
Served-IsSlot buf slot wire slot' v (Served.overflowed h over w e) =
    subst IsSlot (sym e) (close-IsSlot slot)
Served-IsSlot buf slot wire slot' v (Served.lost h _ _ rest p e) =
    subst IsSlot (sym e) (close-IsSlot slot)

AllServed-IsSlot :
    (script : ℕ → List SendResult) (buf : List ℕ) (slots : List ClientSlot) (i : ℕ)
    (wires : List (List ℕ)) (slots' : List ClientSlot)
    → All IsSlot slots
    → AllServed script i buf slots wires slots'
    → All IsSlot slots'
AllServed-IsSlot script buf [] i [] [] v h = tt
AllServed-IsSlot script buf [] i (_ ∷ _) _ v h = absurd h
AllServed-IsSlot script buf [] i [] (_ ∷ _) v h = absurd h
AllServed-IsSlot script buf (_ ∷ _) i [] _ v h = absurd h
AllServed-IsSlot script buf (_ ∷ _) i (_ ∷ _) [] v h = absurd h
AllServed-IsSlot script buf (slot ∷ slots) i (wire ∷ wires) (slot' ∷ slots') (v, vs) (h, hs) = (
  Served-IsSlot buf slot wire slot' v h,
  AllServed-IsSlot script buf slots (i + 1) wires slots' vs hs,
)

add-IsSlot : (slots : List ClientSlot) (fd : ℕ) → All IsSlot slots → All IsSlot (add slots fd).1
unfolding add
add-IsSlot [] fd v = tt
add-IsSlot (slot ∷ slots) fd (v, vs) = elim (Bool-cases (has_client slot)) [
  | inl h ↦ rw h (v, add-IsSlot slots fd vs)
  | inr h ↦ rw h (set_fd-IsSlot slot fd, vs)
]

close_all-IsSlot : (slots : List ClientSlot) → All IsSlot (close_all slots)
unfolding close_all
close_all-IsSlot [] = tt
close_all-IsSlot (slot ∷ slots) = (close-IsSlot slot, close_all-IsSlot slots)

pub init_all-IsSlot : (count : ℕ) → All IsSlot (init_all count)
init_all-IsSlot zero = tt
init_all-IsSlot (suc count) = (
  record {
    output_fits = omega arith;
    line = blank;
    generation = omega arith;
    clean = λ e. (refl, refl);
  },
  init_all-IsSlot count,
)

module _ (slots : List ClientSlot) (v : All IsSlot slots) where
  accepted_table : (accepted : Accept) → All IsSlot (accept_with_output accepted slots).2
  unfolding accept_with_output
  accepted_table again = v
  accepted_table failed = v
  accepted_table (connected fd false) = v
  accepted_table (connected fd true) = elim (Bool-cases (add slots fd).0) [
    | inl e ↦ rw e (add-IsSlot slots fd v)
    | inr e ↦ rw e (add-IsSlot slots fd v)
  ]

  broadcast_table :
      (script : ℕ → List SendResult) (buf : List ℕ) (wires : List (List ℕ))
      (slots' : List ClientSlot)
      → broadcast_bytes_queued script buf slots ≡ some (wires, slots')
      → All IsSlot slots'
  unfolding broadcast_bytes_queued
  broadcast_table script buf wires slots' e = elim (Bool-cases (length buf == 0)) [
    | inl n ↦ let same : slots' ≡ slots = ground arith in rw same v
    | inr n ↦
        AllServed-IsSlot script buf slots 0 wires slots' v
          (broadcast_loop-Served script 0 buf slots wires slots' v (ground arith))
  ]

-- Every slot of the table is in order at first; in a table in order, every slot remains so when a
-- connection is accepted or refused, when all clients are closed, and when a broadcast of some
-- bytes has returned, whatever the sockets took.
pub table-IsSlot :
    (slots : List ClientSlot)
    → All IsSlot slots
    → ((count : ℕ) → All IsSlot (init_all count))
      × ((accepted : Accept) → All IsSlot (accept_with_output accepted slots).2)
      × All IsSlot (close_all slots)
      × ((script : ℕ → List SendResult) (buf : List ℕ) (wires : List (List ℕ))
            (slots' : List ClientSlot)
          → broadcast_bytes_queued script buf slots ≡ some (wires, slots')
          → All IsSlot slots')
table-IsSlot slots v =
    (init_all-IsSlot, accepted_table slots v, close_all-IsSlot slots, broadcast_table slots v)
