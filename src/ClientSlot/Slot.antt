-- ===== src/ClientSlot/Slot.antt =====
-- One slot, and the search for a free one.
use lo_ra_ham_daemon.Base.{All, List, [], ap, arith, false, refl, true, ℕ, ◌++◌, ◌∷◌, ◌≡◌}
use lo_ra_ham_daemon.OutputQueue.Laws.{Fits}
use lo_ra_ham_daemon.ClientSlot.{ClientSlot, has_client, set_fd, close, add}
use lo_ra_ham_daemon.ConfigStream.Lines.{IsLine}
use lo_ra_ham_daemon.ClientSlot.Generation.{IsGeneration, next-IsGeneration}

abbrev pub HasClient : ClientSlot → Type 0
HasClient slot = has_client slot ≡ true

-- A connection takes the first free slot, behind slots that are all taken, and leaves all others
-- alone; in a table whose slots are all taken it is refused, and nothing changes.
add_first_free :
    (taken free : List ClientSlot) (slot : ClientSlot) (fd : ℕ)
    → All HasClient taken
    → has_client slot ≡ false
    → (add (taken ++ slot ∷ free) fd ≡ (true, taken ++ set_fd slot fd ∷ free))
      × (add taken fd ≡ (false, taken))
unfolding add
add_first_free [] free slot fd h e = (rw e refl, refl)
add_first_free (s ∷ taken) free slot fd (t, h) e =
    let (found, full) = add_first_free taken free slot fd h e in
    (rw t (ap (λ r. (r.0, s ∷ r.1)) found), rw t (ap (λ r. (r.0, s ∷ r.1)) full))

-- A slot in order: its buffers are within their bounds, its generation is not 0, and a free slot
-- holds nothing of a former client.
pub record IsSlot (slot : ClientSlot) : Type 0 where
  pub output_fits : Fits slot.output
  pub line : IsLine slot.stream.line
  pub generation : IsGeneration slot.generation
  pub clean : has_client slot ≡ false → (slot.output.pending ≡ []) × (slot.stream.line ≡ [])

pub blank : IsLine []
blank = record { plain = tt; short = omega arith }

pub set_fd-IsSlot : (slot : ClientSlot) (fd : ℕ) → IsSlot (set_fd slot fd)
unfolding set_fd
set_fd-IsSlot slot fd = record {
  output_fits = omega arith;
  line = blank;
  generation = next-IsGeneration slot.generation;
  clean = λ e. cc;
}

pub close-IsSlot : (slot : ClientSlot) → IsSlot (close slot)
unfolding close
close-IsSlot slot = record {
  output_fits = omega arith;
  line = blank;
  generation = next-IsGeneration slot.generation;
  clean = λ e. (refl, refl);
}
