-- ===== src/ConfigStream/Tests.antt =====
-- Short lines at concrete calls; the callback collects them.
use lo_ra_ham_daemon.Base.{List, [], arith, refl, true, ℕ, ◌∷◌, ◌≡◌}
use lo_ra_ham_daemon.ConfigStream.{init, feed}
use lo_ra_ham_daemon.ConfigStream.Lines.{feed-wire}

abbrev collect : List (List ℕ) → List ℕ → List (List ℕ)
collect s line = line ∷ s

feed-wire_example :
    feed collect (65 ∷ 66 ∷ 13 ∷ 10 ∷ 13 ∷ 10 ∷ 67 ∷ 13 ∷ 10 ∷ []) init []
    ≡ (true, init, (67 ∷ []) ∷ (65 ∷ 66 ∷ []) ∷ [])
feed-wire_example = feed-wire collect ((65 ∷ 66 ∷ []) ∷ [] ∷ (67 ∷ []) ∷ []) [] (
  record { plain = (refl, (refl, tt)); short = omega arith },
  (
    record { plain = tt; short = omega arith },
    (record { plain = (refl, tt); short = omega arith }, tt),
  ),
)
