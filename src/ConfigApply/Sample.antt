-- ===== src/ConfigApply/Sample.antt =====
-- For evaluating the model: an SX127x board on 868 MHz, whose driver counts its calls and takes all
-- settings but those with the value 17.
use lo_ra_ham_daemon.Base.{List, [], false, none, not, true, ℕ, ◌+◌, ◌∷◌}
use lo_ra_ham_daemon.Base.Int.{pos}
use lo_ra_ham_daemon.ConfigValue.FixedPoint.{fixed_point}
use lo_ra_ham_daemon.ConfigParser.{same}
use lo_ra_ham_daemon.ConfigReplay.{reset}
use lo_ra_ham_daemon.ConfigValidate.{Board}
use lo_ra_ham_daemon.DataTx.{sx127x, lora}
use lo_ra_ham_daemon.ConfigApply.{Driver, RfDefaults, Radio}

abbrev pub band : Board fixed_point
band = record {
  chip_family = sx127x;
  freq_min_mhz = 8630000;
  freq_max_mhz = 8700000;
  high_power = false;
  sx1262_power_max = 20;
}

abbrev pub defaults : RfDefaults ℕ
defaults = record {
  spreading_factor = pos 12;
  bandwidth_khz = 1250000;
  coding_rate = pos 5;
  preamble_len = pos 8;
}

-- "17"
abbrev pub seventeen : List ℕ
seventeen = 49 ∷ 55 ∷ []

abbrev pub driver : Driver ℕ
driver = record {
  switch_mode = λ mode d. (true, d + 1);
  apply_fsk_param = λ key val d. (not (same val seventeen), d + 1);
  apply_lora_param = λ key val d. (not (same val seventeen), d + 1);
}

abbrev pub radio : Radio ℕ ℕ
radio = record { driver = 0; mode_flag = lora; getrssi = false; effective = none; replay = reset }

-- "SET SF=9"
abbrev pub sf_line : List ℕ
sf_line = 83 ∷ 69 ∷ 84 ∷ 32 ∷ 83 ∷ 70 ∷ 61 ∷ 57 ∷ []
