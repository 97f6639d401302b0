-- ===== src/ClientSlot/Generation.antt =====
-- The generation of a slot tells two clients apart.
use lo_ra_ham_daemon.Base.{
  arith, if◌then◌else◌, suc, zero, ℕ, ◌%◌, ◌+◌, ◌-◌, ◌<◌, ◌==◌, ◌≡◌, ◌≢◌, ◌≤◌,
}
use lo_ra_ham_daemon.ClientSlot.{next_generation}

-- The values that a generation takes: not 0, which a job uses for no check.
abbrev pub IsGeneration : ℕ → Type 0
IsGeneration g = (1 ≤ g) × (g < 4294967296)

abbrev pub after : ℕ → ℕ → ℕ
after zero g = g
after (suc n) g = after n (next_generation g)

pub next_generation_lem :
    (g : ℕ) → IsGeneration g → next_generation g ≡ (if g == 4294967295 then 1 else g + 1)
unfolding next_generation
next_generation_lem g v = ground arith

pub next-IsGeneration : (g : ℕ) → IsGeneration (next_generation g)
unfolding next_generation
next-IsGeneration g = ground arith

after_lem : (n g : ℕ) → IsGeneration g → after n g ≡ (g - 1 + n) % 4294967295 + 1
after_lem zero g v = omega arith
after_lem (suc n) g v =
    let ih = after_lem n (next_generation g) (next-IsGeneration g) in
    ground (arith, ih, next_generation_lem g v)

-- The n-th generation after g, a generation, is one too and so never 0, and is not g again before
-- all of the 2^32 - 1 values have been used.
after_distinct :
    (n g : ℕ) → IsGeneration g → IsGeneration (after n g) × (0 < n → n < 4294967295 → after n g ≢ g)
after_distinct n g v = omega (arith, after_lem n g v)
