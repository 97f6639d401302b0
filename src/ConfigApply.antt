-- ===== src/ConfigApply.antt =====
-- loraham_daemon/config_apply.cpp: a configuration command, from the line to the radio. The driver
-- is an interface; true is its RADIOLIB_ERR_NONE. The log lines are left out.
pub mod Branches
pub mod Rejected
pub mod Progress
pub mod Shadow
pub mod Airtime
pub mod Untouching
pub mod Sample
mod Tests
use lo_ra_ham_daemon.Base.{
  Bool, List, Option, [], false, if◌then◌else◌, none, not, some, true, ℕ, ◌||◌, ◌∷◌,
}
use lo_ra_ham_daemon.Base.Int.{ℤ, pos}
use lo_ra_ham_daemon.ConfigValue.{Floats, parse_int_exact, parse_float_exact, parse_bool01_exact}
use lo_ra_ham_daemon.ConfigPolicy.{lora_airtime_ms, fsk_airtime_ms}
use lo_ra_ham_daemon.ConfigParser.{ConfigCommand, parse_command, same, is_empty, getrssi_word}
use lo_ra_ham_daemon.ConfigReplay.{Replay, note, start_mode}
use lo_ra_ham_daemon.ConfigValidate.Key
use lo_ra_ham_daemon.ConfigValidate.{
  Board, Reason, malformed_token, unknown_key, fsk_word, lora_word, is_lora_only_key,
  is_fsk_only_key, validate_command,
}
use lo_ra_ham_daemon.DataTx.{RadioMode, lora, fsk, payload_limit}

pub data Status : Type 0 where
  ok_no_radio applied rejected_invalid rejected_malformed unknown hw_error : Status

-- What the pipeline calls of a RadioDriver.
pub record Driver (D : Type 0) : Type 0 where
  pub switch_mode : RadioMode → D → Bool × D
  pub apply_fsk_param : List ℕ → List ℕ → D → Bool × D
  pub apply_lora_param : List ℕ → List ℕ → D → Bool × D

-- CONFIG_POLICY_MAX_AIRTIME_MS
abbrev pub max_airtime_ms : ℕ
max_airtime_ms = 20000

abbrev pub status_of : Reason → Status
status_of malformed_token = rejected_malformed
status_of unknown_key = unknown
status_of _ = rejected_invalid

-- The parameters that are not GETRSSI, and the values of those that are.
abbrev pub radio_tokens : List (List ℕ × List ℕ) → List (List ℕ × List ℕ)
radio_tokens [] = []
radio_tokens ((key, val) ∷ tokens) =
    let rest = radio_tokens tokens in if same key getrssi_word then rest else (key, val) ∷ rest

abbrev pub getrssi_values : List (List ℕ × List ℕ) → List (List ℕ)
getrssi_values [] = []
getrssi_values ((key, val) ∷ tokens) =
    let rest = getrssi_values tokens in if same key getrssi_word then val ∷ rest else rest

-- A key of the other mode.
abbrev pub ignored : RadioMode → List ℕ → Bool
ignored fsk key = is_lora_only_key key
ignored lora key = is_fsk_only_key key

-- *out after parse(val, out)
abbrev pub parsed_or {ℓ} : {A : Type ℓ} → Option A → A → A
parsed_or none out = out
parsed_or (some v) out = v

pub record Effective (F : Type 0) : Type 0 where
  pub sf : ℤ
  pub bw_khz : F
  pub cr : ℤ
  pub preamble : ℤ
  pub fsk_br_kbps : F
  pub fsk_preamble_bits : ℤ

-- What the pipeline reads of the band's RadioRfDefaults.
pub record RfDefaults (F : Type 0) : Type 0 where
  pub spreading_factor : ℤ
  pub bandwidth_khz : F
  pub coding_rate : ℤ
  pub preamble_len : ℤ

-- What a command may change. `effective` is none where its flag `set` is false.
pub record Radio (F D : Type 0) : Type 0 where
  pub driver : D
  pub mode_flag : RadioMode
  pub getrssi : Bool
  pub effective : Option (Effective F)
  pub replay : Replay

module _ (fl : Floats) (rf : RfDefaults fl.Float) where
  abbrev pub load_defaults : Effective fl.Float
  load_defaults = record {
    sf = rf.spreading_factor;
    bw_khz = rf.bandwidth_khz;
    cr = rf.coding_rate;
    preamble = rf.preamble_len;
    fsk_br_kbps = fl.decimal 48 1;
    fsk_preamble_bits = pos 16;
  }

  abbrev pub effective_of : Option (Effective fl.Float) → Effective fl.Float
  effective_of none = load_defaults
  effective_of (some e) = e

  unfoldable pub merge_token : RadioMode → List ℕ → List ℕ → Effective fl.Float → Effective fl.Float
  merge_token target key val e =
      if same key Key.sf
      then record e { sf = parsed_or (parse_int_exact val) e.sf }
      else if same key Key.bw
      then record e { bw_khz = parsed_or (parse_float_exact fl val) e.bw_khz }
      else if same key Key.cr
      then record e { cr = parsed_or (parse_int_exact val) e.cr }
      else if same key Key.preamble
      then (elim target [
        | lora ↦ record e { preamble = parsed_or (parse_int_exact val) e.preamble }
        | fsk ↦ record e { fsk_preamble_bits = parsed_or (parse_int_exact val) e.fsk_preamble_bits }
      ])
      else if same key Key.br
      then record e { fsk_br_kbps = parsed_or (parse_float_exact fl val) e.fsk_br_kbps }
      else e

  unfoldable pub merge :
      RadioMode → List (List ℕ × List ℕ) → Effective fl.Float → Effective fl.Float
  merge target [] e = e
  merge target ((key, val) ∷ tokens) e = merge target tokens (merge_token target key val e)

  abbrev pub airtime_ms : Board fl → RadioMode → Effective fl.Float → fl.Double
  airtime_ms board lora e =
      lora_airtime_ms fl e.sf e.bw_khz e.cr e.preamble
        (payload_limit (some (board.chip_family, lora)))
  airtime_ms board fsk e =
      fsk_airtime_ms fl e.fsk_br_kbps e.fsk_preamble_bits
        (payload_limit (some (board.chip_family, fsk)))

  -- Not negative, and not above the limit.
  abbrev pub in_limit : fl.Double → Bool
  in_limit ms =
      not (fl.below ms (fl.of_int (pos 0)) || fl.below (fl.of_int (pos max_airtime_ms)) ms)

  -- The configuration that the command's keys come on top of.
  abbrev pub base_of : List ℕ → Option (Effective fl.Float) → Effective fl.Float
  base_of mode current = if is_empty mode then effective_of current else load_defaults

  unfoldable pub airtime_ok :
      Board fl → ConfigCommand → RadioMode → Option (Effective fl.Float) → Bool
  airtime_ok board parsed target current =
      in_limit (airtime_ms board target (merge target parsed.tokens (base_of parsed.mode current)))

  unfoldable pub note_key : RadioMode → List ℕ → List ℕ → Effective fl.Float → Effective fl.Float
  note_key lora key val e =
      if same key Key.sf
      then record e { sf = parsed_or (parse_int_exact val) e.sf }
      else if same key Key.bw
      then record e { bw_khz = parsed_or (parse_float_exact fl val) e.bw_khz }
      else if same key Key.cr
      then record e { cr = parsed_or (parse_int_exact val) e.cr }
      else if same key Key.preamble
      then record e { preamble = parsed_or (parse_int_exact val) e.preamble }
      else e
  note_key fsk key val e =
      if same key Key.br
      then record e { fsk_br_kbps = parsed_or (parse_float_exact fl val) e.fsk_br_kbps }
      else if same key Key.preamble
      then record e { fsk_preamble_bits = parsed_or (parse_int_exact val) e.fsk_preamble_bits }
      else e

  module _ {D : Type 0} (board : Board fl) (calls : Driver D) where
    abbrev pub apply_param : RadioMode → List ℕ → List ℕ → D → Bool × D
    apply_param fsk = calls.apply_fsk_param
    apply_param lora = calls.apply_lora_param

    -- mode_val is "FSK" or "LORA": whether the driver switched, and the state.
    unfoldable pub switch : RadioMode → List ℕ → Radio fl.Float D → Bool × Radio fl.Float D
    switch mode mode_val st =
        let (ok, d) = calls.switch_mode mode st.driver in
        if ok
        then (
          true,
          record st {
            driver = d;
            mode_flag = mode;
            effective = some load_defaults;
            replay = start_mode mode_val st.replay;
          },
        )
        else (false, record st { driver = d })

    -- Whether to go on, and whether the hardware was touched.
    unfoldable pub apply_mode : List ℕ → Radio fl.Float D → Bool × Bool × Radio fl.Float D
    unfolding switch
    apply_mode mode_val st =
        if is_empty mode_val
        then (true, false, st)
        else if same mode_val fsk_word
        then (let r = switch fsk mode_val st in (r.0, r.0, r.1))
        else if same mode_val lora_word
        then (let r = switch lora mode_val st in (r.0, r.0, r.1))
        else (true, false, st)

    unfoldable pub apply_getrssi : List (List ℕ) → Radio fl.Float D → Radio fl.Float D
    apply_getrssi [] st = st
    apply_getrssi (val ∷ vals) st =
        apply_getrssi vals (record st { getrssi = parsed_or (parse_bool01_exact val) st.getrssi })

    abbrev pub noted : List ℕ → List ℕ → D → Radio fl.Float D → Radio fl.Float D
    noted key val d st = record st {
      driver = d;
      effective = some (note_key st.mode_flag key val (effective_of st.effective));
      replay = note key val st.replay;
    }

    unfoldable pub apply_tokens :
        List (List ℕ × List ℕ) → Bool → Radio fl.Float D → Status × Radio fl.Float D
    apply_tokens [] touched st = (if touched then applied else ok_no_radio, st)
    apply_tokens ((key, val) ∷ tokens) touched st = elim (ignored st.mode_flag key) [
      | true ↦ apply_tokens tokens touched st
      | false ↦
          let r = apply_param st.mode_flag key val st.driver in
          elim r.0 [
            | false ↦ (hw_error, record st { driver = r.1 })
            | true ↦ apply_tokens tokens true (noted key val r.1 st)
          ]
    ]

    -- Behind the two gates.
    unfoldable pub apply_valid : ConfigCommand → Radio fl.Float D → Status × Radio fl.Float D
    unfolding apply_mode
    apply_valid parsed st =
        let r = apply_mode parsed.mode st in
        elim r.0 [
          | false ↦ (hw_error, r.2)
          | true ↦
              apply_tokens (radio_tokens parsed.tokens) r.1
                (apply_getrssi (getrssi_values parsed.tokens) r.2)
        ]

    unfoldable pub apply_parsed : ConfigCommand → Radio fl.Float D → Status × Radio fl.Float D
    apply_parsed parsed st =
        let v = validate_command fl board parsed st.mode_flag in
        let loaded = record st { effective = some (effective_of st.effective) } in
        elim v.rejection [
          | some (_, _, reason) ↦ (status_of reason, st)
          | none ↦
              if airtime_ok board parsed v.target_mode st.effective
              then apply_valid parsed loaded
              else (rejected_invalid, loaded)
        ]

    unfoldable pub parse_and_apply_config : List ℕ → Radio fl.Float D → Status × Radio fl.Float D
    parse_and_apply_config cmd st =
        let parsed = parse_command cmd in
        if not parsed.is_set
        then (unknown, st)
        else if not parsed.has_params
        then (rejected_malformed, st)
        else apply_parsed parsed st
