-- ===== src/ConfigReplay/Tests.antt =====
-- MODE=FSK with two keys.
use lo_ra_ham_daemon.Base.{List, [], inr, refl, true, ℕ, ◌∷◌, ◌≡◌}
use lo_ra_ham_daemon.ConfigParser.{parse_command, uppercase}
use lo_ra_ham_daemon.ConfigReplay.{command}
use lo_ra_ham_daemon.ConfigReplay.RoundTrip.{parse_command-command}

-- "FSK", "SF", "7", "BW" and "1=2"
abbrev keys : List (List ℕ × List ℕ)
keys = (83 ∷ 70 ∷ [], 55 ∷ []) ∷ (66 ∷ 87 ∷ [], 49 ∷ 61 ∷ 50 ∷ []) ∷ []

abbrev fsk : List ℕ
fsk = 70 ∷ 83 ∷ 75 ∷ []

parse_command-command_example :
    parse_command (command (record { mode = fsk; keys = keys })) ≡ record {
      is_set = true;
      has_params = true;
      text = command (record { mode = fsk; keys = keys });
      mode = fsk;
      mode_count = 1;
      tokens = keys;
      malformed_tokens = [];
    }
unfolding uppercase
parse_command-command_example =
    parse_command-command fsk keys
      (inr (record {
        some_byte = refl;
        inner = ((refl, refl), ((refl, refl), ((refl, refl), tt)));
        capital = refl;
      }))
      ((
        (
          record {
            some_byte = refl;
            no_equals = (refl, (refl, tt));
            capital = refl;
            not_mode = refl;
          },
          ((refl, refl), ((refl, refl), tt)),
          refl,
          ((refl, refl), tt),
        ),
        (
          (
            record {
              some_byte = refl;
              no_equals = (refl, (refl, tt));
              capital = refl;
              not_mode = refl;
            },
            ((refl, refl), ((refl, refl), tt)),
            refl,
            ((refl, refl), ((refl, refl), ((refl, refl), tt))),
          ),
          tt,
        ),
      ))
      refl
