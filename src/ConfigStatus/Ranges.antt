-- ===== src/ConfigStatus/Ranges.antt =====
-- The values that the runtime setters let pass.
use lo_ra_ham_daemon.Base.{List, arith, some, ℕ, ◌<◌, ◌≡◌, ◌≤◌}
use lo_ra_ham_daemon.Base.Int.{ℤ, pos, negsuc}
use lo_ra_ham_daemon.ConfigStatus.{
  command_of, parse_set_uval, parse_set_ival, is_set_cadrssi, is_set_cadwait, is_set_cadidle,
  is_set_cadpoll,
}

parse_set_uval_range :
    (cmd prefix : List ℕ) (lo hi v : ℕ)
    → parse_set_uval cmd prefix lo hi ≡ some v
    → (lo ≤ v) × (v ≤ hi)
unfolding parse_set_uval
parse_set_uval_range cmd prefix lo hi v h = (ground (arith, h), ground (arith, h))

-- From -130 to 0.
abbrev pub IsThreshold : ℤ → Type 0
IsThreshold (pos n) = n ≡ 0
IsThreshold (negsuc n) = n < 130

parse_set_ival_range :
    (cmd prefix : List ℕ) (v : ℤ) → parse_set_ival cmd prefix 130 0 ≡ some v → IsThreshold v
unfolding parse_set_ival
parse_set_ival_range cmd prefix (pos n) h = ground (arith, h)
parse_set_ival_range cmd prefix (negsuc n) h = ground (arith, h)

pub is_set_cadrssi_range : (line : List ℕ) (v : ℤ) → is_set_cadrssi line ≡ some v → IsThreshold v
unfolding is_set_cadrssi
is_set_cadrssi_range line v h = parse_set_ival_range (command_of line) _ v h

pub is_set_cadwait_range :
    (line : List ℕ) (v : ℕ) → is_set_cadwait line ≡ some v → (50 ≤ v) × (v ≤ 5000)
unfolding is_set_cadwait
is_set_cadwait_range line v h = parse_set_uval_range (command_of line) _ 50 5000 v h

pub is_set_cadidle_range : (line : List ℕ) (v : ℕ) → is_set_cadidle line ≡ some v → v ≤ 2000
unfolding is_set_cadidle
is_set_cadidle_range line v h = (parse_set_uval_range (command_of line) _ 0 2000 v h).1

pub is_set_cadpoll_range :
    (line : List ℕ) (v : ℕ) → is_set_cadpoll line ≡ some v → (10 ≤ v) × (v ≤ 500)
unfolding is_set_cadpoll
is_set_cadpoll_range line v h = parse_set_uval_range (command_of line) _ 10 500 v h
