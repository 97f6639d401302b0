-- ===== src/ConfigApply/Tests.antt =====
-- Commands to the sample board.
use lo_ra_ham_daemon.Base.{List, [], false, refl, true, ℕ, ◌∷◌, ◌≡◌}
use lo_ra_ham_daemon.ConfigValue.FixedPoint.{fixed_point}
use lo_ra_ham_daemon.ConfigParser.{
  token_loop, uppercase, find, strip, add_token, parse_text, parse_command,
}
use lo_ra_ham_daemon.ConfigValidate.{Board}
use lo_ra_ham_daemon.DataTx.{sx127x, lora, RadioMode}
use lo_ra_ham_daemon.ConfigApply.{
  Driver, RfDefaults, Radio, Status, parse_and_apply_config, apply_tokens, unknown,
}
use lo_ra_ham_daemon.ConfigApply.Sample.{seventeen, sf_line, band, defaults, driver, radio}
use lo_ra_ham_daemon.ConfigApply.Rejected.{IsUntouched, rejected-IsUntouched}
use lo_ra_ham_daemon.ConfigApply.Airtime.{keeps_limit, airtime_kept}
use lo_ra_ham_daemon.ConfigApply.Progress.{IsProgress, apply_tokens-IsProgress}

-- "SET X=1"
abbrev unknown_line : List ℕ
unknown_line = 83 ∷ 69 ∷ 84 ∷ 32 ∷ 88 ∷ 61 ∷ 49 ∷ []

rejected-IsUntouched_example :
    IsUntouched fixed_point defaults band driver radio
      (parse_and_apply_config fixed_point defaults band driver unknown_line radio).1
unfolding parse_and_apply_config parse_command parse_text strip find token_loop add_token uppercase
    lo_ra_ham_daemon.ConfigApply.apply_parsed lo_ra_ham_daemon.ConfigValidate.validate_command
    lo_ra_ham_daemon.ConfigValidate.check_tokens lo_ra_ham_daemon.ConfigValidate.check_token
    lo_ra_ham_daemon.ConfigValidate.is_known_config_key
    lo_ra_ham_daemon.ConfigValidate.is_common_key lo_ra_ham_daemon.ConfigValidate.is_lora_only_key
    lo_ra_ham_daemon.ConfigValidate.is_fsk_only_key
rejected-IsUntouched_example =
    rejected-IsUntouched fixed_point defaults band driver unknown_line radio refl

airtime_kept_example :
    keeps_limit fixed_point defaults band driver
      (parse_and_apply_config fixed_point defaults band driver sf_line radio).1
    ≡ true
unfolding parse_and_apply_config parse_command parse_text strip find token_loop add_token uppercase
    lo_ra_ham_daemon.ConfigApply.apply_parsed lo_ra_ham_daemon.ConfigValidate.validate_command
    lo_ra_ham_daemon.ConfigValidate.check_tokens lo_ra_ham_daemon.ConfigValidate.check_token
    lo_ra_ham_daemon.ConfigValidate.is_known_config_key
    lo_ra_ham_daemon.ConfigValidate.is_common_key lo_ra_ham_daemon.ConfigValidate.is_lora_only_key
    lo_ra_ham_daemon.ConfigValidate.is_fsk_only_key lo_ra_ham_daemon.ConfigValidate.lora_value
    apply_tokens lo_ra_ham_daemon.ConfigApply.airtime_ok lo_ra_ham_daemon.ConfigApply.apply_getrssi
    lo_ra_ham_daemon.ConfigApply.apply_mode lo_ra_ham_daemon.ConfigApply.apply_valid
    lo_ra_ham_daemon.ConfigApply.merge lo_ra_ham_daemon.ConfigApply.merge_token
    lo_ra_ham_daemon.ConfigApply.note_key lo_ra_ham_daemon.ConfigApply.switch
    lo_ra_ham_daemon.ConfigPolicy.lora_airtime_ms lo_ra_ham_daemon.ConfigPolicy.lora_ldro_required
    lo_ra_ham_daemon.ConfigValue.parse_int_exact lo_ra_ham_daemon.ConfigValue.trim_ascii
    lo_ra_ham_daemon.ConfigValue.cut_spaces lo_ra_ham_daemon.ConfigValue.skip_spaces
    lo_ra_ham_daemon.ConfigValue.strtol lo_ra_ham_daemon.ConfigValue.number
    lo_ra_ham_daemon.ConfigValue.magnitude lo_ra_ham_daemon.ConfigValue.digit
    lo_ra_ham_daemon.ConfigValue.digits lo_ra_ham_daemon.ConfigValue.sign
    lo_ra_ham_daemon.ConfigValue.skip_prefix lo_ra_ham_daemon.ConfigValue.only_trailing_space
    lo_ra_ham_daemon.DataTx.payload_limit
airtime_kept_example = airtime_kept fixed_point defaults band driver sf_line radio refl

-- SF=9, BR=9 and POWER=17
abbrev tokens : List (List ℕ × List ℕ)
tokens =
    (83 ∷ 70 ∷ [], 57 ∷ [])
    ∷ (66 ∷ 82 ∷ [], 57 ∷ [])
    ∷ (80 ∷ 79 ∷ 87 ∷ 69 ∷ 82 ∷ [], seventeen)
    ∷ []

-- SF=9 is taken, BR=9 is of the other mode, and POWER=17 is refused.
apply_tokens-IsProgress_example :
    IsProgress fixed_point defaults band driver tokens false radio
      (apply_tokens fixed_point defaults band driver tokens false radio)
apply_tokens-IsProgress_example =
    apply_tokens-IsProgress fixed_point defaults band driver tokens false radio
