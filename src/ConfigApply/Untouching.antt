-- ===== src/ConfigApply/Untouching.antt =====
-- A command that does not touch the radio.
use lo_ra_ham_daemon.Base.{
  Bool, Bool-cases, List, Option-cases, [], ap, arith, false, inl, inr, length, not, refl, suc, sym,
  take, true, zero, ℕ, ◌&&◌, ◌++◌, ◌∙◌, ◌∷◌, ◌≡◌,
}
use mathlib.Core.Path.{subst}
use lo_ra_ham_daemon.ConfigValue.{Floats, parse_bool01_exact}
use lo_ra_ham_daemon.ConfigParser.{
  ConfigCommand, parse_command, parse_text, token_loop, add_token, find, space, no_command, same,
  set_word, strip, has_radio_key, touches_radio,
}
use lo_ra_ham_daemon.ConfigValidate.{Board, Reason, validate_command}
use lo_ra_ham_daemon.ConfigApply.{
  Status, applied, hw_error, ok_no_radio, apply_valid, parsed_or, status_of, Driver, Radio,
  RfDefaults, effective_of, radio_tokens, getrssi_values, apply_getrssi, apply_tokens, apply_mode,
  apply_parsed, parse_and_apply_config, airtime_ok,
}
use lo_ra_ham_daemon.ConfigApply.Branches.{
  loaded, apply_valid_going, apply_parsed_rejected, apply_parsed_over, apply_parsed_valid,
  parse_and_apply_config_cases,
}

-- Without a MODE token there is no mode.
abbrev Modeless : ConfigCommand → Type 0
Modeless cmd = cmd.mode_count ≡ 0 → cmd.mode ≡ []

add_token-Modeless :
    (cmd : ConfigCommand) (token : List ℕ) → Modeless cmd → Modeless (add_token cmd token)
unfolding add_token
add_token-Modeless cmd token h = ground arith

token_loop-Modeless :
    (fuel : ℕ) (rest : List ℕ) (cmd : ConfigCommand)
    → Modeless cmd
    → Modeless (token_loop fuel rest cmd)
unfolding token_loop
token_loop-Modeless zero rest cmd h = h
token_loop-Modeless (suc fuel) [] cmd h = h
token_loop-Modeless (suc fuel) (x ∷ xs) cmd h = elim (Option-cases (find space (x ∷ xs))) [
  | inl e ↦ rw (e, token_loop) (add_token-Modeless cmd (x ∷ xs) h)
  | inr ((token, more), e) ↦
      rw (e, token_loop)
        (token_loop-Modeless fuel more (add_token cmd token) (add_token-Modeless cmd token h))
]

parse_text-Modeless : (text : List ℕ) → Modeless (parse_text text)
unfolding parse_text
parse_text-Modeless text =
    elim (Bool-cases
      (not (same text set_word) && not (same (take 4 text) (set_word ++ space ∷ [])))) [
        | inl other ↦ rw other (λ _. refl)
        | inr setter ↦ elim (Option-cases (find space text)) [
          | inl e ↦ rw (setter, e) (λ _. refl)
          | inr ((w, rest), e) ↦
              rw (setter, e)
                (token_loop-Modeless (length rest) rest
                  (record (no_command text) { is_set = true; has_params = true }) (λ _. refl))
        ]
      ]

parse_command-Modeless : (line : List ℕ) → Modeless (parse_command line)
unfolding parse_command
parse_command-Modeless line = parse_text-Modeless (strip line)

radio_tokens_none :
    (tokens : List (List ℕ × List ℕ)) → has_radio_key tokens ≡ false → radio_tokens tokens ≡ []
unfolding has_radio_key
radio_tokens_none [] h = refl
radio_tokens_none ((key, val) ∷ tokens) h = ground (arith, radio_tokens_none tokens)

touches_radio_lem :
    (line : List ℕ)
    → let parsed = parse_command line in
      touches_radio line ≡ false
      → parsed.is_set ≡ true
      → parsed.has_params ≡ true
      → (parsed.mode ≡ []) × (radio_tokens parsed.tokens ≡ [])
unfolding touches_radio
touches_radio_lem line h s p =
    let parsed = parse_command line in
    let count : parsed.mode_count ≡ 0 = ground (arith, h, s, p) in
    let keys : has_radio_key parsed.tokens ≡ false = ground (arith, h, s, p, count) in
    (parse_command-Modeless line count, radio_tokens_none parsed.tokens keys)

-- Statuses after which the caller leaves the radio alone.
abbrev pub is_idle : Status → Bool
is_idle applied = false
is_idle hw_error = false
is_idle _ = true

status_of-idle : (reason : Reason) → is_idle (status_of reason) ≡ true
status_of-idle reason = ground arith

module _ (fl : Floats) (rf : RfDefaults fl.Float) {D : Type 0} (board : Board fl)
    (calls : Driver D) where
  -- The same but for the GETRSSI flag.
  pub record IsSameRf (st st' : Radio fl.Float D) : Type 0 where
    pub driver : st'.driver ≡ st.driver
    pub mode_flag : st'.mode_flag ≡ st.mode_flag
    pub effective : effective_of fl rf st'.effective ≡ effective_of fl rf st.effective
    pub replay : st'.replay ≡ st.replay

  IsSameRf-refl : (st : Radio fl.Float D) → IsSameRf st st
  IsSameRf-refl st = record { driver = refl; mode_flag = refl; effective = refl; replay = refl }

  abbrev pub Idle : Radio fl.Float D → Status × Radio fl.Float D → Type 0
  Idle st r = (is_idle r.0 ≡ true) × IsSameRf st r.1

  apply_getrssi-IsSameRf :
      (vals : List (List ℕ)) (st : Radio fl.Float D)
      → IsSameRf st (apply_getrssi fl rf board calls vals st)
  unfolding apply_getrssi
  apply_getrssi-IsSameRf [] st = IsSameRf-refl st
  apply_getrssi-IsSameRf (val ∷ vals) st =
      let h =
        apply_getrssi-IsSameRf vals
          (record st { getrssi = parsed_or (parse_bool01_exact val) st.getrssi }) in
      record {
        driver = h.driver;
        mode_flag = h.mode_flag;
        effective = h.effective;
        replay = h.replay;
      }

  apply_mode_none : (st : Radio fl.Float D) → apply_mode fl rf board calls [] st ≡ (true, false, st)
  unfolding apply_mode
  apply_mode_none st = refl

  apply_tokens_none :
      (st : Radio fl.Float D) → apply_tokens fl rf board calls [] false st ≡ (ok_no_radio, st)
  unfolding apply_tokens
  apply_tokens_none st = refl

  apply_valid-Idle :
      (parsed : ConfigCommand) (st : Radio fl.Float D)
      → parsed.mode ≡ []
      → radio_tokens parsed.tokens ≡ []
      → Idle st (apply_valid fl rf board calls parsed (loaded fl rf board calls st))
  apply_valid-Idle parsed st m t =
      let start = loaded fl rf board calls st in
      let vals = getrssi_values parsed.tokens in
      let switched : apply_mode fl rf board calls parsed.mode start ≡ (true, false, start) =
        ap (λ l. apply_mode fl rf board calls l start) m ∙ apply_mode_none start in
      let after = apply_getrssi fl rf board calls vals start in
      let all : apply_valid fl rf board calls parsed start ≡ (ok_no_radio, after) =
        apply_valid_going fl rf board calls parsed start (ap (λ r. r.0) switched)
        ∙ ap
            (λ r.
              apply_tokens fl rf board calls (radio_tokens parsed.tokens) r.1
                (apply_getrssi fl rf board calls vals r.2))
            switched
        ∙ ap (λ l. apply_tokens fl rf board calls l false after) t
        ∙ apply_tokens_none after in
      let kept = apply_getrssi-IsSameRf vals start in
      subst (Idle st) (sym all) (
        refl,
        record {
          driver = kept.driver;
          mode_flag = kept.mode_flag;
          effective = kept.effective;
          replay = kept.replay;
        },
      )

  apply_parsed-Idle :
      (parsed : ConfigCommand) (st : Radio fl.Float D)
      → parsed.mode ≡ []
      → radio_tokens parsed.tokens ≡ []
      → Idle st (apply_parsed fl rf board calls parsed st)
  apply_parsed-Idle parsed st m t =
      let v = validate_command fl board parsed st.mode_flag in
      elim (Option-cases v.rejection) [
        | inr ((key, val, reason), e) ↦
            subst (Idle st)
              (sym (apply_parsed_rejected fl rf board calls parsed st key val reason e))
              (status_of-idle reason, IsSameRf-refl st)
        | inl e ↦ elim (Bool-cases (airtime_ok fl rf board parsed v.target_mode st.effective)) [
          | inl ok ↦
              subst (Idle st) (sym (apply_parsed_valid fl rf board calls parsed st e ok))
                (apply_valid-Idle parsed st m t)
          | inr over ↦
              subst (Idle st) (sym (apply_parsed_over fl rf board calls parsed st e over))
                (refl, record { driver = refl; mode_flag = refl; effective = refl; replay = refl })
        ]
      ]

  -- A line that does not touch the radio, by the test that the dispatcher makes before it lets a line
  -- pass while jobs wait, calls nothing of the driver and leaves the mode, the configuration in
  -- effect and the replay as they are, however it is answered.
  pub touches_radio-Idle :
      (line : List ℕ) (st : Radio fl.Float D)
      → touches_radio line ≡ false
      → Idle st (parse_and_apply_config fl rf board calls line st)
  touches_radio-Idle line st h = elim (parse_and_apply_config_cases fl rf board calls line st) [
    | inl e ↦ subst (Idle st) (sym e) (refl, IsSameRf-refl st)
    | inr (inl e) ↦ subst (Idle st) (sym e) (refl, IsSameRf-refl st)
    | inr (inr (s, p, e)) ↦
        let (m, t) = touches_radio_lem line h s p in
        subst (Idle st) (sym e) (apply_parsed-Idle (parse_command line) st m t)
  ]
