-- ===== src/ConfigValidate/Tests.antt =====
-- "SET MODE=FSK POWER=17" on an SX127x board without the permission for high power.
use lo_ra_ham_daemon.Base.{[], false, none, refl, some, true, ℕ, ◌∷◌, ◌≡◌, ◌≤◌}
use lo_ra_ham_daemon.Base.Int.{pos}
use lo_ra_ham_daemon.ConfigValue.{parse_int_exact}
use lo_ra_ham_daemon.ConfigValue.FixedPoint.{fixed_point}
use lo_ra_ham_daemon.ConfigParser.{ConfigCommand}
use lo_ra_ham_daemon.DataTx.{sx127x, lora, RadioMode}
use lo_ra_ham_daemon.ConfigValidate.{Board, fsk_word, validate_command}
use lo_ra_ham_daemon.ConfigValidate.Accepts.{IsAcceptable, validate_command-IsAcceptable}
use lo_ra_ham_daemon.ConfigValidate.Power.{power_permitted}
use lo_ra_ham_daemon.ConfigValidate.Key

abbrev board : Board fixed_point
board = record {
  chip_family = sx127x;
  freq_min_mhz = 8630000;
  freq_max_mhz = 8700000;
  high_power = false;
  sx1262_power_max = 20;
}

abbrev command : ConfigCommand
command = record {
  is_set = true;
  has_params = true;
  text = [];
  mode = fsk_word;
  mode_count = 1;
  tokens = (Key.power, 49 ∷ 55 ∷ []) ∷ [];
  malformed_tokens = [];
}

validate_command-IsAcceptable_example :
    let result = validate_command fixed_point board command lora in
    ((result.rejection ≡ none) → IsAcceptable fixed_point board command lora result.target_mode)
    × ((target : RadioMode)
        → IsAcceptable fixed_point board command lora target
        → (result.rejection ≡ none) × (result.target_mode ≡ target))
validate_command-IsAcceptable_example =
    validate_command-IsAcceptable fixed_point board command lora refl refl

power_permitted_example :
    (p : ℕ) × (parse_int_exact (49 ∷ 55 ∷ []) ≡ some (pos p)) × (2 ≤ p) × (p ≤ 17)
unfolding validate_command lo_ra_ham_daemon.ConfigValidate.check_tokens
    lo_ra_ham_daemon.ConfigValidate.check_token lo_ra_ham_daemon.ConfigValidate.is_known_config_key
    lo_ra_ham_daemon.ConfigValidate.is_common_key lo_ra_ham_daemon.ConfigValidate.is_lora_only_key
    lo_ra_ham_daemon.ConfigValidate.fsk_value parse_int_exact
    lo_ra_ham_daemon.ConfigValue.trim_ascii lo_ra_ham_daemon.ConfigValue.cut_spaces
    lo_ra_ham_daemon.ConfigValue.skip_spaces lo_ra_ham_daemon.ConfigValue.strtol
    lo_ra_ham_daemon.ConfigValue.number lo_ra_ham_daemon.ConfigValue.magnitude
    lo_ra_ham_daemon.ConfigValue.skip_prefix lo_ra_ham_daemon.ConfigValue.sign
    lo_ra_ham_daemon.ConfigValue.digit lo_ra_ham_daemon.ConfigValue.digits
    lo_ra_ham_daemon.ConfigValue.only_trailing_space
    lo_ra_ham_daemon.ConfigPolicy.power_valid_family
power_permitted_example =
    power_permitted fixed_point board command lora [] [] (49 ∷ 55 ∷ []) refl refl refl refl refl
      refl
