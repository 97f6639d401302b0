-- ===== src/ConfigApply/Rejected.antt =====
-- A refused command.
use lo_ra_ham_daemon.Base.{
  Bool, Bool-cases, List, Option-cases, [], ap, arith, false, inl, inr, refl, some, sym, true, ℕ,
  ◌∙◌, ◌∷◌, ◌≡◌,
}
use lo_ra_ham_daemon.ConfigValue.{Floats}
use lo_ra_ham_daemon.ConfigParser.{ConfigCommand, parse_command}
use lo_ra_ham_daemon.ConfigValidate.{Board, validate_command}
use mathlib.Core.Path.{subst}
use lo_ra_ham_daemon.ConfigApply.Branches.{
  loaded, apply_tokens-ignored, apply_tokens_applied, apply_tokens_refused, apply_valid_failed,
  apply_valid_going, apply_parsed_rejected, apply_parsed_over, apply_parsed_valid,
  parse_and_apply_config_cases,
}
use lo_ra_ham_daemon.ConfigApply.{
  Status, unknown, rejected_invalid, rejected_malformed, Driver, Radio, RfDefaults, effective_of,
  ignored, noted, apply_param, apply_tokens, apply_mode, apply_getrssi, getrssi_values,
  radio_tokens, apply_valid, apply_parsed, parse_and_apply_config, airtime_ok,
}

abbrev pub is_rejection : Status → Bool
is_rejection rejected_invalid = true
is_rejection rejected_malformed = true
is_rejection unknown = true
is_rejection _ = false

module _ (fl : Floats) (rf : RfDefaults fl.Float) {D : Type 0} (board : Board fl)
    (calls : Driver D) where
  apply_tokens-accepts :
      (tokens : List (List ℕ × List ℕ)) (touched : Bool) (st : Radio fl.Float D)
      → is_rejection (apply_tokens fl rf board calls tokens touched st).0 ≡ false
  unfolding apply_tokens
  apply_tokens-accepts [] true st = refl
  apply_tokens-accepts [] false st = refl
  apply_tokens-accepts ((key, val) ∷ tokens) touched st =
      let r = apply_param fl rf board calls st.mode_flag key val st.driver in
      elim (Bool-cases (ignored st.mode_flag key)) [
        | inl e ↦
            ap (λ r. is_rejection r.0)
              (apply_tokens-ignored fl rf board calls key val tokens touched st e)
            ∙ apply_tokens-accepts tokens touched st
        | inr e ↦ elim (Bool-cases r.0) [
          | inl a ↦
              ap (λ r. is_rejection r.0)
                (apply_tokens_applied fl rf board calls key val tokens touched st e a)
              ∙ apply_tokens-accepts tokens true (noted fl rf board calls key val r.1 st)
          | inr a ↦
              ap (λ r. is_rejection r.0)
                (apply_tokens_refused fl rf board calls key val tokens touched st e a)
        ]
      ]

  apply_valid-accepts :
      (parsed : ConfigCommand) (st : Radio fl.Float D)
      → is_rejection (apply_valid fl rf board calls parsed st).0 ≡ false
  apply_valid-accepts parsed st =
      let r = apply_mode fl rf board calls parsed.mode st in
      elim (Bool-cases r.0) [
        | inl e ↦
            ap (λ r. is_rejection r.0) (apply_valid_going fl rf board calls parsed st e)
            ∙ apply_tokens-accepts (radio_tokens parsed.tokens) r.1
                (apply_getrssi fl rf board calls (getrssi_values parsed.tokens) r.2)
        | inr e ↦ ap (λ r. is_rejection r.0) (apply_valid_failed fl rf board calls parsed st e)
      ]

  -- The same radio in the same configuration: the shadow of it may only have been loaded.
  pub record IsUntouched (st st' : Radio fl.Float D) : Type 0 where
    pub driver : st'.driver ≡ st.driver
    pub mode_flag : st'.mode_flag ≡ st.mode_flag
    pub getrssi : st'.getrssi ≡ st.getrssi
    pub effective : effective_of fl rf st'.effective ≡ effective_of fl rf st.effective
    pub replay : st'.replay ≡ st.replay

  unchanged : (st : Radio fl.Float D) → IsUntouched st st
  unchanged st = record {
    driver = refl;
    mode_flag = refl;
    getrssi = refl;
    effective = refl;
    replay = refl;
  }

  loaded-IsUntouched :
      (st : Radio fl.Float D)
      → IsUntouched st (record st { effective = some (effective_of fl rf st.effective) })
  loaded-IsUntouched st = record {
    driver = refl;
    mode_flag = refl;
    getrssi = refl;
    effective = refl;
    replay = refl;
  }

  -- Refused and untouched, or not refused.
  abbrev Refusal : Radio fl.Float D → Status × Radio fl.Float D → Type 0
  Refusal st r = is_rejection r.0 ≡ true → IsUntouched st r.1

  apply_parsed-Refusal :
      (parsed : ConfigCommand) (st : Radio fl.Float D)
      → Refusal st (apply_parsed fl rf board calls parsed st)
  apply_parsed-Refusal parsed st =
      let v = validate_command fl board parsed st.mode_flag in
      elim (Option-cases v.rejection) [
        | inr ((key, val, reason), e) ↦
            subst (Refusal st)
              (sym (apply_parsed_rejected fl rf board calls parsed st key val reason e))
              (λ _. unchanged st)
        | inl e ↦ elim (Bool-cases (airtime_ok fl rf board parsed v.target_mode st.effective)) [
          | inl ok ↦
              subst (Refusal st) (sym (apply_parsed_valid fl rf board calls parsed st e ok)) (λ h.
                absurd
                  (ground (arith, h, apply_valid-accepts parsed (loaded fl rf board calls st))))
          | inr over ↦
              subst (Refusal st) (sym (apply_parsed_over fl rf board calls parsed st e over))
                (λ _. loaded-IsUntouched st)
        ]
      ]

  -- A command that is answered as unknown, malformed or invalid has called nothing of the driver and
  -- changed neither the mode, nor the GETRSSI flag, nor the configuration in effect, nor what would
  -- be replayed.
  pub rejected-IsUntouched :
      (cmd : List ℕ) (st : Radio fl.Float D)
      → is_rejection (parse_and_apply_config fl rf board calls cmd st).0 ≡ true
      → IsUntouched st (parse_and_apply_config fl rf board calls cmd st).1
  rejected-IsUntouched cmd st =
      let parsed = parse_command cmd in
      elim (parse_and_apply_config_cases fl rf board calls cmd st) [
        | inl e ↦ subst (Refusal st) (sym e) (λ _. unchanged st)
        | inr (inl e) ↦ subst (Refusal st) (sym e) (λ _. unchanged st)
        | inr (inr (_, _, e)) ↦ subst (Refusal st) (sym e) (apply_parsed-Refusal parsed st)
      ]
