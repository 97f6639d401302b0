-- ===== src/ConfigValidate.antt =====
-- loraham_daemon/config_validate.cpp: whether a configuration command may be applied, and why not.
-- The code's texts for a reason are the constructors of Reason.
pub mod Key
pub mod Accepts
pub mod Power
mod Tests
use lo_ra_ham_daemon.Base.{
  Bool, List, Option, [], false, if◌then◌else◌, ltb, none, not, some, true, ℕ, ◌&&◌, ◌++◌, ◌||◌,
  ◌∷◌,
}
use lo_ra_ham_daemon.Base.Int.{ℤ, pos, negsuc}
use lo_ra_ham_daemon.ConfigValue.{
  Floats, trim_ascii, lower_ascii, parse_int_exact, parse_bool01_exact, parse_hex_or_dec_u32_exact,
  parse_float_exact, float_equal,
}
use lo_ra_ham_daemon.ConfigPolicy.{
  lora_sf_valid, lora_cr_valid, lora_preamble_valid, lora_sync_valid, power_valid_family, between,
  fsk_preamble_valid, fsk_sync_valid, fsk_ook_valid_family, fsk_encoding_valid_family,
  lora_bandwidth_valid, fsk_bitrate_valid, fsk_freqdev_valid_family, fsk_rxbw_valid_family,
  freq_valid_band, zero_float,
}
use lo_ra_ham_daemon.ConfigParser.{ConfigCommand, same, is_empty, mode_word, getrssi_word}
use lo_ra_ham_daemon.DataTx.{ChipFamily, sx127x, RadioMode, lora, fsk}

-- "FSK" and "LORA"
abbrev pub fsk_word : List ℕ
fsk_word = 70 ∷ 83 ∷ 75 ∷ []

abbrev pub lora_word : List ℕ
lora_word = 76 ∷ 79 ∷ 82 ∷ 65 ∷ []

-- "auto", "off" and "none"
abbrev auto_word : List ℕ
auto_word = 97 ∷ 117 ∷ 116 ∷ 111 ∷ []

abbrev off_word : List ℕ
off_word = 111 ∷ 102 ∷ 102 ∷ []

abbrev none_word : List ℕ
none_word = 110 ∷ 111 ∷ 110 ∷ 101 ∷ []

abbrev pub one_of : List ℕ → List (List ℕ) → Bool
one_of key [] = false
one_of key (k ∷ keys) = same key k || one_of key keys

unfoldable pub is_lora_only_key : List ℕ → Bool
is_lora_only_key key = one_of key (Key.sf ∷ Key.bw ∷ Key.cr ∷ Key.ldro ∷ Key.crc ∷ [])

unfoldable pub is_fsk_only_key : List ℕ → Bool
is_fsk_only_key key =
    one_of key (Key.br ∷ Key.freqdev ∷ Key.rxbw ∷ Key.ook ∷ Key.shaping ∷ Key.encoding ∷ [])

unfoldable pub is_common_key : List ℕ → Bool
is_common_key key = one_of key (Key.freq ∷ Key.power ∷ Key.preamble ∷ Key.sync ∷ [])

unfoldable pub is_known_config_key : List ℕ → Bool
is_known_config_key key =
    same key getrssi_word || (is_common_key key || (is_lora_only_key key || is_fsk_only_key key))

pub data Reason : Type 0 where
  malformed_token duplicate_key unknown_mode unknown_key invalid_boolean : Reason
  invalid_fsk_value invalid_lora_value off_band no_permission : Reason

-- A rejection names the key, the value and the reason; valid has no rejection.
pub record ValidationResult : Type 0 where
  pub rejection : Option (List ℕ × List ℕ × Reason)
  pub target_mode : RadioMode

abbrev pub is_some {ℓ} : {A : Type ℓ} → Option A → Bool
is_some none = false
is_some (some a) = true

-- cmd.tokens[j].first == key for some j < i; `before` holds those tokens.
abbrev pub has_key : List ℕ → List (List ℕ × List ℕ) → Bool
has_key key [] = false
has_key key ((k, _) ∷ before) = same k key || has_key key before

-- none is a mode that is not known.
abbrev pub target_of : List ℕ → RadioMode → Option RadioMode
target_of mode current =
    if is_empty mode
    then some current
    else if same mode fsk_word
    then some fsk
    else if same mode lora_word
    then some lora
    else none

-- parse(...) && valid(...)
abbrev pub holds {ℓ} : {A : Type ℓ} → (A → Bool) → Option A → Bool
holds valid none = false
holds valid (some a) = valid a

-- The radio that the command is for: its family, its band, what the board may send with.
pub record Board (fl : Floats) : Type 0 where
  pub chip_family : ChipFamily
  pub freq_min_mhz : fl.Float
  pub freq_max_mhz : fl.Float
  pub high_power : Bool
  pub sx1262_power_max : ℕ

module _ (fl : Floats) (board : Board fl) where
  abbrev pub freq_value : List ℕ → Bool
  freq_value val =
      holds (freq_valid_band fl board.freq_min_mhz board.freq_max_mhz) (parse_float_exact fl val)

  abbrev pub power_value : List ℕ → Bool
  power_value val =
      holds (power_valid_family board.sx1262_power_max board.chip_family board.high_power)
        (parse_int_exact val)

  abbrev power_needs_permission : List ℕ → Bool
  power_needs_permission val = elim board.chip_family [
    | sx127x ↦ not board.high_power && holds (between 20 20) (parse_int_exact val)
    | _ ↦ false
  ]

  unfoldable pub lora_value : List ℕ → List ℕ → Bool
  lora_value key val =
      if same key Key.freq
      then freq_value val
      else if same key Key.power
      then power_value val
      else if same key Key.sf
      then holds lora_sf_valid (parse_int_exact val)
      else if same key Key.bw
      then holds (lora_bandwidth_valid fl) (parse_float_exact fl val)
      else if same key Key.cr
      then holds lora_cr_valid (parse_int_exact val)
      else if same key Key.crc
      then is_some (parse_bool01_exact val)
      else if same key Key.preamble
      then holds lora_preamble_valid (parse_int_exact val)
      else if same key Key.sync
      then holds lora_sync_valid (parse_hex_or_dec_u32_exact val)
      else if same key Key.ldro
      then (if same (lower_ascii (trim_ascii val)) auto_word
          then true
          else is_some (parse_bool01_exact val))
      else true

  abbrev shaping_valid : fl.Float → Bool
  shaping_valid shaping =
      float_equal fl shaping (fl.decimal 0 1)
      || (float_equal fl shaping (fl.decimal 3 1)
          || (float_equal fl shaping (fl.decimal 5 1)
              || (float_equal fl shaping (fl.decimal 7 1)
                  || float_equal fl shaping (fl.decimal 10 1))))

  abbrev pub fsk_shaping_value : List ℕ → Bool
  fsk_shaping_value val =
      let norm = lower_ascii (trim_ascii val) in
      if same norm off_word || same norm none_word
      then true
      else holds shaping_valid (parse_float_exact fl norm)

  unfoldable pub fsk_value : List ℕ → List ℕ → Bool
  fsk_value key val =
      if same key Key.freq
      then freq_value val
      else if same key Key.power
      then power_value val
      else if same key Key.br
      then holds (fsk_bitrate_valid fl) (parse_float_exact fl val)
      else if same key Key.freqdev
      then holds (fsk_freqdev_valid_family fl board.chip_family) (parse_float_exact fl val)
      else if same key Key.rxbw
      then holds (fsk_rxbw_valid_family fl board.chip_family) (parse_float_exact fl val)
      else if same key Key.ook
      then holds (fsk_ook_valid_family board.chip_family) (parse_bool01_exact val)
      else if same key Key.shaping
      then fsk_shaping_value val
      else if same key Key.encoding
      then holds (fsk_encoding_valid_family board.chip_family) (parse_int_exact val)
      else if same key Key.preamble
      then holds fsk_preamble_valid (parse_int_exact val)
      else if same key Key.sync
      then holds fsk_sync_valid (parse_hex_or_dec_u32_exact val)
      else true

  abbrev in_band : fl.Float → Bool
  in_band f =
      fl.less (zero_float fl) f && not (freq_valid_band fl board.freq_min_mhz board.freq_max_mhz f)

  unfoldable pub reject_reason : List ℕ → List ℕ → Reason → Reason
  reject_reason key val generic =
      if same key Key.power && power_needs_permission val
      then no_permission
      else if not (same key Key.freq)
      then generic
      else if holds in_band (parse_float_exact fl val)
      then off_band
      else generic

  -- One round of the loop: none where it goes on.
  unfoldable pub check_token : RadioMode → List (List ℕ × List ℕ) → List ℕ → List ℕ → Option Reason
  check_token target before key val =
      if not (is_known_config_key key)
      then some unknown_key
      else if has_key key before
      then some duplicate_key
      else if same key getrssi_word
      then (if is_some (parse_bool01_exact val) then none else some invalid_boolean)
      else elim target [
        | fsk ↦
            if is_lora_only_key key
            then none
            else if fsk_value key val
            then none
            else some (reject_reason key val invalid_fsk_value)
        | lora ↦
            if is_fsk_only_key key
            then none
            else if lora_value key val
            then none
            else some (reject_reason key val invalid_lora_value)
      ]

  unfoldable pub check_tokens :
      RadioMode
      → List (List ℕ × List ℕ)
      → List (List ℕ × List ℕ)
      → Option (List ℕ × List ℕ × Reason)
  check_tokens target before [] = none
  check_tokens target before ((key, val) ∷ tokens) =
      let rest = check_tokens target (before ++ (key, val) ∷ []) tokens in
      elim (check_token target before key val) [ some why ↦ some (key, val, why) | none ↦ rest ]

  unfoldable pub validate_command : ConfigCommand → RadioMode → ValidationResult
  validate_command cmd current =
      if not cmd.is_set || not cmd.has_params
      then record { rejection = none; target_mode = current }
      else elim cmd.malformed_tokens [
        | token ∷ _ ↦ record {
          rejection = some (token, [], malformed_token);
          target_mode = current;
        }
        | [] ↦
            if ltb 1 cmd.mode_count
            then record {
              rejection = some (mode_word, cmd.mode, duplicate_key);
              target_mode = current;
            }
            else elim (target_of cmd.mode current) [
              | none ↦ record {
                rejection = some (mode_word, cmd.mode, unknown_mode);
                target_mode = current;
              }
              | some target ↦ record {
                rejection = check_tokens target [] cmd.tokens;
                target_mode = target;
              }
            ]
      ]
