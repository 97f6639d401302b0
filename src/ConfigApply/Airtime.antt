-- ===== src/ConfigApply/Airtime.antt =====
-- The airtime of the configuration in effect.
use lo_ra_ham_daemon.Base.{
  Bool, Bool-cases, List, Option-cases, [], ap, arith, false, inl, inr, refl, some, sym, true, ℕ,
  ◌∙◌, ◌∷◌, ◌≡◌, ◌⊎◌,
}
use mathlib.Core.Path.{subst}
use lo_ra_ham_daemon.ConfigValue.{Floats, parse_bool01_exact}
use lo_ra_ham_daemon.ConfigParser.{ConfigCommand, parse_command, same, getrssi_word}
use lo_ra_ham_daemon.ConfigValidate.{Board, validate_command}
use lo_ra_ham_daemon.DataTx.{RadioMode, lora, fsk}
use lo_ra_ham_daemon.ConfigApply.Branches.{
  loaded, apply_tokens-ignored, apply_tokens_applied, apply_tokens_refused, apply_valid_failed,
  apply_valid_going, apply_parsed_rejected, apply_parsed_over, apply_parsed_valid,
  parse_and_apply_config_cases,
}
use lo_ra_ham_daemon.ConfigValidate.Accepts.{validate_command-IsAcceptable}
use lo_ra_ham_daemon.ConfigValidate.{target_of}
use lo_ra_ham_daemon.ConfigApply.Shadow.{Agree, merge_ignored, merge_getrssi, merge_noted}
use lo_ra_ham_daemon.ConfigApply.{
  parsed_or, base_of, Status, applied, ok_no_radio, hw_error, Effective, Driver, Radio, RfDefaults,
  effective_of, ignored, noted, apply_param, apply_tokens, apply_mode, apply_getrssi,
  getrssi_values, radio_tokens, apply_valid, apply_parsed, parse_and_apply_config, airtime_ok,
  merge_token, merge, airtime_ms, in_limit,
}

abbrev pub is_success : Status → Bool
is_success applied = true
is_success ok_no_radio = true
is_success _ = false

module _ (fl : Floats) (rf : RfDefaults fl.Float) {D : Type 0} (board : Board fl)
    (calls : Driver D) where
  airtime-Agree :
      (m : RadioMode) (e e' : Effective fl.Float)
      → Agree m e e'
      → airtime_ms fl rf board m e ≡ airtime_ms fl rf board m e'
  airtime-Agree lora e e' (a, b, c, d) = rw (a, b, c, d) refl
  airtime-Agree fsk e e' (a, b) = rw (a, b) refl

  abbrev Ends : RadioMode → Effective fl.Float → Status × Radio fl.Float D → Type 0
  Ends m e r =
      (r.0 ≡ hw_error) ⊎ ((r.1.mode_flag ≡ m) × Agree m e (effective_of fl rf r.1.effective))

  apply_tokens-Agree :
      (tokens : List (List ℕ × List ℕ)) (touched : Bool) (st : Radio fl.Float D)
      (e : Effective fl.Float)
      → Agree st.mode_flag e (effective_of fl rf st.effective)
      → Ends st.mode_flag
          (merge fl rf st.mode_flag tokens e)
          (apply_tokens fl rf board calls (radio_tokens tokens) touched st)
  unfolding merge apply_tokens
  apply_tokens-Agree [] touched st e a = inr (refl, a)
  apply_tokens-Agree ((key, val) ∷ tokens) touched st e a =
      let r = apply_param fl rf board calls st.mode_flag key val st.driver in
      let m = st.mode_flag in
      let e' = merge_token fl rf m key val e in
      let others = radio_tokens tokens in
      elim (Bool-cases (same key getrssi_word)) [
        | inl g ↦
            rw (g, merge_getrssi fl rf m key val e g) (apply_tokens-Agree tokens touched st e a)
        | inr g ↦ rw g (elim (Bool-cases (ignored m key)) [
          | inl i ↦
              subst (Ends m (merge fl rf m tokens e'))
                (sym (apply_tokens-ignored fl rf board calls key val others touched st i))
                (apply_tokens-Agree tokens touched st e'
                  (merge_ignored fl rf m key val e (effective_of fl rf st.effective) i a))
          | inr i ↦ elim (Bool-cases r.0) [
            | inl ok ↦
                subst (Ends m (merge fl rf m tokens e'))
                  (sym (apply_tokens_applied fl rf board calls key val others touched st i ok))
                  (apply_tokens-Agree tokens true (noted fl rf board calls key val r.1 st) e'
                    (merge_noted fl rf m key val e (effective_of fl rf st.effective) i a))
            | inr no_answer ↦
                subst (Ends m (merge fl rf m tokens e'))
                  (sym
                    (apply_tokens_refused fl rf board calls key val others touched st i no_answer))
                  (inl refl)
          ]
        ])
      ]

  apply_getrssi_lem :
      (vals : List (List ℕ)) (st : Radio fl.Float D)
      → let r = apply_getrssi fl rf board calls vals st in
        (r.mode_flag ≡ st.mode_flag) × (r.effective ≡ st.effective)
  unfolding apply_getrssi
  apply_getrssi_lem [] st = (refl, refl)
  apply_getrssi_lem (val ∷ vals) st =
      apply_getrssi_lem vals (record st { getrssi = parsed_or (parse_bool01_exact val) st.getrssi })

  apply_mode_lem :
      (mode : List ℕ) (target : RadioMode) (st : Radio fl.Float D)
      → target_of mode st.mode_flag ≡ some target
      → let r = apply_mode fl rf board calls mode st in
        r.0 ≡ true
        → (r.2.mode_flag ≡ target)
          × (effective_of fl rf r.2.effective ≡ base_of fl rf mode st.effective)
  unfolding apply_mode
  apply_mode_lem mode target st t e = ground arith

  Agree-same : (m : RadioMode) (e e' : Effective fl.Float) → e ≡ e' → Agree m e e'
  Agree-same lora e e' h = rw h (refl, refl, refl, refl)
  Agree-same fsk e e' h = rw h (refl, refl)

  -- Whether the radio's configuration keeps to the limit.
  abbrev pub keeps_limit : Radio fl.Float D → Bool
  keeps_limit st =
      in_limit fl rf (airtime_ms fl rf board st.mode_flag (effective_of fl rf st.effective))

  abbrev Kept : Status × Radio fl.Float D → Type 0
  Kept r = is_success r.0 ≡ true → keeps_limit r.1 ≡ true

  judged-Kept :
      (target : RadioMode) (tokens : List (List ℕ × List ℕ)) (e : Effective fl.Float)
      (m : RadioMode)
      → m ≡ target
      → in_limit fl rf (airtime_ms fl rf board target (merge fl rf target tokens e)) ≡ true
      → (r : Status × Radio fl.Float D) → Ends m (merge fl rf m tokens e) r
      → Kept r
  judged-Kept target tokens e m q ok r (inl hw) = λ h. absurd (ground (arith, hw, h))
  judged-Kept target tokens e m q ok r (inr (mode, agree)) = λ _.
      let judged =
        subst (λ t. in_limit fl rf (airtime_ms fl rf board t (merge fl rf t tokens e)) ≡ true)
          (sym q) ok in
      rw mode (
        rw (sym (airtime-Agree m (merge fl rf m tokens e) (effective_of fl rf r.1.effective) agree))
          judged)

  apply_valid-Kept :
      (parsed : ConfigCommand) (target : RadioMode) (st : Radio fl.Float D)
      → target_of parsed.mode st.mode_flag ≡ some target
      → airtime_ok fl rf board parsed target st.effective ≡ true
      → Kept (apply_valid fl rf board calls parsed (loaded fl rf board calls st))
  unfolding airtime_ok
  apply_valid-Kept parsed target st t ok =
      let start = loaded fl rf board calls st in
      let r = apply_mode fl rf board calls parsed.mode start in
      elim (Bool-cases r.0) [
        | inr failed ↦
            subst Kept (sym (apply_valid_failed fl rf board calls parsed start failed))
              (λ h. absurd (ground (arith, h)))
        | inl going ↦
            let (mode, base) = apply_mode_lem parsed.mode target start t going in
            let vals = getrssi_values parsed.tokens in
            let (mode', kept) = apply_getrssi_lem vals r.2 in
            let st1 = apply_getrssi fl rf board calls vals r.2 in
            let e = base_of fl rf parsed.mode st.effective in
            let m : st1.mode_flag ≡ target = mode' ∙ mode in
            let same_base : e ≡ effective_of fl rf st1.effective =
              sym (ap (effective_of fl rf) kept ∙ base) in
            let ends =
              apply_tokens-Agree parsed.tokens r.1 st1 e
                (Agree-same st1.mode_flag e (effective_of fl rf st1.effective) same_base) in
            subst Kept (sym (apply_valid_going fl rf board calls parsed start going)) (
              judged-Kept target parsed.tokens e st1.mode_flag m ok
                (apply_tokens fl rf board calls (radio_tokens parsed.tokens) r.1 st1) ends)
      ]

  apply_parsed-Kept :
      (parsed : ConfigCommand) (st : Radio fl.Float D)
      → parsed.is_set ≡ true
      → parsed.has_params ≡ true
      → Kept (apply_parsed fl rf board calls parsed st)
  apply_parsed-Kept parsed st s p =
      let v = validate_command fl board parsed st.mode_flag in
      elim (Option-cases v.rejection) [
        | inr ((key, val, reason), e) ↦
            subst Kept (sym (apply_parsed_rejected fl rf board calls parsed st key val reason e))
              (λ h. absurd (ground (arith, h)))
        | inl e ↦ elim (Bool-cases (airtime_ok fl rf board parsed v.target_mode st.effective)) [
          | inr over ↦
              subst Kept (sym (apply_parsed_over fl rf board calls parsed st e over))
                (λ h. absurd (ground (arith, h)))
          | inl ok ↦
              let a = (validate_command-IsAcceptable fl board parsed st.mode_flag s p).0 e in
              subst Kept (sym (apply_parsed_valid fl rf board calls parsed st e ok))
                (apply_valid-Kept parsed v.target_mode st a.known_mode ok)
        ]
      ]

  -- After a command that is answered OK, whether it touched the radio or not, the configuration in
  -- effect, in the mode that the radio is then in, has a worst-case airtime within the limit: what was
  -- judged before the first call of the driver is what the radio has been set to.
  pub airtime_kept :
      (cmd : List ℕ) (st : Radio fl.Float D)
      → is_success (parse_and_apply_config fl rf board calls cmd st).0 ≡ true
      → keeps_limit (parse_and_apply_config fl rf board calls cmd st).1 ≡ true
  airtime_kept cmd st = elim (parse_and_apply_config_cases fl rf board calls cmd st) [
    | inl e ↦ subst Kept (sym e) (λ h. absurd (ground (arith, h)))
    | inr (inl e) ↦ subst Kept (sym e) (λ h. absurd (ground (arith, h)))
    | inr (inr (s, p, e)) ↦ subst Kept (sym e) (apply_parsed-Kept (parse_command cmd) st s p)
  ]
