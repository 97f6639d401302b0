-- ===== src/ConfigApply/Branches.antt =====
-- The ways through the pipeline, each as an equation.
use lo_ra_ham_daemon.Base.{Bool, List, arith, false, none, refl, some, true, ℕ, ◌∷◌, ◌≡◌, ◌⊎◌}
use lo_ra_ham_daemon.ConfigValue.{Floats}
use lo_ra_ham_daemon.ConfigParser.{ConfigCommand, parse_command}
use lo_ra_ham_daemon.ConfigValidate.{Board, Reason, validate_command}
use lo_ra_ham_daemon.ConfigApply.{
  hw_error, unknown, rejected_invalid, rejected_malformed, Driver, Radio, RfDefaults, effective_of,
  ignored, noted, apply_param, apply_tokens, apply_mode, apply_getrssi, getrssi_values,
  radio_tokens, apply_valid, apply_parsed, parse_and_apply_config, airtime_ok, status_of,
}

module _ (fl : Floats) (rf : RfDefaults fl.Float) {D : Type 0} (board : Board fl)
    (calls : Driver D) where
  abbrev pub loaded : Radio fl.Float D → Radio fl.Float D
  loaded st = record st { effective = some (effective_of fl rf st.effective) }

  pub apply_tokens-ignored :
      (key val : List ℕ) (tokens : List (List ℕ × List ℕ)) (touched : Bool) (st : Radio fl.Float D)
      → ignored st.mode_flag key ≡ true
      → apply_tokens fl rf board calls ((key, val) ∷ tokens) touched st
        ≡ apply_tokens fl rf board calls tokens touched st
  unfolding apply_tokens
  apply_tokens-ignored key val tokens touched st e = rw (e, apply_tokens) refl

  pub apply_tokens_applied :
      (key val : List ℕ) (tokens : List (List ℕ × List ℕ)) (touched : Bool) (st : Radio fl.Float D)
      → ignored st.mode_flag key ≡ false
      → let r = apply_param fl rf board calls st.mode_flag key val st.driver in
        r.0 ≡ true
        → apply_tokens fl rf board calls ((key, val) ∷ tokens) touched st
          ≡ apply_tokens fl rf board calls tokens true (noted fl rf board calls key val r.1 st)
  unfolding apply_tokens
  apply_tokens_applied key val tokens touched st e a = rw (e, a, apply_tokens) refl

  pub apply_tokens_refused :
      (key val : List ℕ) (tokens : List (List ℕ × List ℕ)) (touched : Bool) (st : Radio fl.Float D)
      → ignored st.mode_flag key ≡ false
      → let r = apply_param fl rf board calls st.mode_flag key val st.driver in
        r.0 ≡ false
        → apply_tokens fl rf board calls ((key, val) ∷ tokens) touched st
          ≡ (hw_error, record st { driver = r.1 })
  unfolding apply_tokens
  apply_tokens_refused key val tokens touched st e a = rw (e, a, apply_tokens) refl

  pub apply_valid_failed :
      (parsed : ConfigCommand) (st : Radio fl.Float D)
      → let r = apply_mode fl rf board calls parsed.mode st in
        r.0 ≡ false → apply_valid fl rf board calls parsed st ≡ (hw_error, r.2)
  unfolding apply_valid
  apply_valid_failed parsed st e = ground (arith, e)

  pub apply_valid_going :
      (parsed : ConfigCommand) (st : Radio fl.Float D)
      → let r = apply_mode fl rf board calls parsed.mode st in
        r.0 ≡ true
        → apply_valid fl rf board calls parsed st
          ≡ apply_tokens fl rf board calls
              (radio_tokens parsed.tokens)
              r.1
              (apply_getrssi fl rf board calls (getrssi_values parsed.tokens) r.2)
  unfolding apply_valid
  apply_valid_going parsed st e = ground (arith, e)

  pub apply_parsed_rejected :
      (parsed : ConfigCommand) (st : Radio fl.Float D) (key val : List ℕ) (reason : Reason)
      → (validate_command fl board parsed st.mode_flag).rejection ≡ some (key, val, reason)
      → apply_parsed fl rf board calls parsed st ≡ (status_of reason, st)
  unfolding apply_parsed
  apply_parsed_rejected parsed st key val reason e = ground (arith, e)

  pub apply_parsed_over :
      (parsed : ConfigCommand) (st : Radio fl.Float D)
      → let v = validate_command fl board parsed st.mode_flag in
        v.rejection ≡ none
        → airtime_ok fl rf board parsed v.target_mode st.effective ≡ false
        → apply_parsed fl rf board calls parsed st ≡ (rejected_invalid, loaded st)
  unfolding apply_parsed
  apply_parsed_over parsed st e over = ground (arith, e, over)

  pub apply_parsed_valid :
      (parsed : ConfigCommand) (st : Radio fl.Float D)
      → let v = validate_command fl board parsed st.mode_flag in
        v.rejection ≡ none
        → airtime_ok fl rf board parsed v.target_mode st.effective ≡ true
        → apply_parsed fl rf board calls parsed st
          ≡ apply_valid fl rf board calls parsed (loaded st)
  unfolding apply_parsed
  apply_parsed_valid parsed st e ok = ground (arith, e, ok)

  -- The parsed line as the pipeline goes on with it.
  pub parse_and_apply_config_cases :
      (cmd : List ℕ) (st : Radio fl.Float D)
      → let parsed = parse_command cmd in
        (parse_and_apply_config fl rf board calls cmd st ≡ (unknown, st))
        ⊎ ((parse_and_apply_config fl rf board calls cmd st ≡ (rejected_malformed, st))
            ⊎ ((parsed.is_set ≡ true)
                × (parsed.has_params ≡ true)
                × (parse_and_apply_config fl rf board calls cmd st
                    ≡ apply_parsed fl rf board calls parsed st)))
  unfolding parse_and_apply_config
  parse_and_apply_config_cases cmd st = ground arith
