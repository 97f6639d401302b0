-- ===== src/ConfigValue/Tests.antt =====
-- " -42 "
use lo_ra_ham_daemon.Base.{[], arith, refl, some, true, ◌∷◌, ◌≡◌}
use lo_ra_ham_daemon.Base.Int.{negsuc}
use lo_ra_ham_daemon.ConfigValue.{parse_int_exact}
use lo_ra_ham_daemon.ConfigValue.Numerals.{parse_int_exact-text}

parse_int_exact-text_example : parse_int_exact (32 ∷ 45 ∷ 52 ∷ 50 ∷ 32 ∷ []) ≡ some (negsuc 41)
parse_int_exact-text_example =
    parse_int_exact-text (32 ∷ []) (some true) 4 (2 ∷ []) (32 ∷ []) (refl, tt)
      (omega arith, (omega arith, tt)) (refl, tt)
