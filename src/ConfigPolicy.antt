-- ===== src/ConfigPolicy.antt =====
-- loraham_daemon/config_policy.cpp: which values a configuration may have. The numbers that stand in
-- float and double are those of Floats; the ceiling of the SX1262's power is an argument.
use lo_ra_ham_daemon.Base.{
  Bool, List, [], false, if◌then◌else◌, leb, ltb, not, true, ℕ, ◌%◌, ◌&&◌, ◌*◌, ◌-◌, ◌/◌, ◌==◌, ◌^◌,
  ◌||◌, ◌∷◌,
}
use lo_ra_ham_daemon.Base.Int.{ℤ, pos, negsuc}
use lo_ra_ham_daemon.ConfigValue.{Floats, float_equal}
use lo_ra_ham_daemon.DataTx.{ChipFamily, sx127x, sx1262}

-- lo <= n && n <= hi
abbrev pub between : ℕ → ℕ → ℤ → Bool
between lo hi (pos n) = leb lo n && leb n hi
between lo hi (negsuc n) = false

abbrev pub lora_sf_valid : ℤ → Bool
lora_sf_valid = between 7 12

abbrev pub lora_cr_valid : ℤ → Bool
lora_cr_valid = between 5 8

abbrev pub lora_preamble_valid : ℤ → Bool
lora_preamble_valid = between 6 512

abbrev pub lora_sync_valid : ℕ → Bool
lora_sync_valid sync = leb sync 255

unfoldable pub power_valid_family : ℕ → ChipFamily → Bool → ℤ → Bool
power_valid_family sx1262_max sx127x high_power power =
    if between 2 17 power then true else high_power && between 20 20 power
power_valid_family sx1262_max sx1262 high_power power = between 0 sx1262_max power

abbrev pub fsk_preamble_valid : ℤ → Bool
fsk_preamble_valid = between 0 2048

unfoldable pub fsk_sync_valid : ℕ → Bool
fsk_sync_valid sync =
    if sync == 0 || ltb 65535 sync
    then false
    else if leb sync 255
    then not (sync == 0)
    else not ((sync / 256) % 256 == 0) && not (sync % 256 == 0)

unfoldable pub fsk_ook_valid_family : ChipFamily → Bool → Bool
fsk_ook_valid_family sx1262 ook = false
fsk_ook_valid_family sx127x ook = true

unfoldable pub fsk_encoding_valid_family : ChipFamily → ℤ → Bool
fsk_encoding_valid_family family encoding =
    if not (between 0 2 encoding)
    then false
    else elim family [ sx1262 ↦ not (between 1 1 encoding) | sx127x ↦ true ]

-- The raster of the SX127x for LoRa and FSK and that of the SX126x, in tenths or hundredths of a kHz.
abbrev lora_bandwidths : List (ℕ × ℕ)
lora_bandwidths =
    (78, 1)
    ∷ (104, 1)
    ∷ (156, 1)
    ∷ (208, 1)
    ∷ (3125, 2)
    ∷ (417, 1)
    ∷ (625, 1)
    ∷ (1250, 1)
    ∷ (2500, 1)
    ∷ (5000, 1)
    ∷ []

abbrev rx_bandwidths : List (ℕ × ℕ)
rx_bandwidths =
    (26, 1)
    ∷ (31, 1)
    ∷ (39, 1)
    ∷ (52, 1)
    ∷ (63, 1)
    ∷ (78, 1)
    ∷ (104, 1)
    ∷ (125, 1)
    ∷ (156, 1)
    ∷ (208, 1)
    ∷ (250, 1)
    ∷ (3125, 2)
    ∷ (313, 1)
    ∷ (417, 1)
    ∷ (500, 1)
    ∷ (625, 1)
    ∷ (833, 1)
    ∷ (1000, 1)
    ∷ (1250, 1)
    ∷ (1667, 1)
    ∷ (2000, 1)
    ∷ (2500, 1)
    ∷ []

abbrev rx_bandwidths_sx126x : List (ℕ × ℕ)
rx_bandwidths_sx126x =
    (48, 1)
    ∷ (58, 1)
    ∷ (73, 1)
    ∷ (97, 1)
    ∷ (117, 1)
    ∷ (146, 1)
    ∷ (195, 1)
    ∷ (234, 1)
    ∷ (293, 1)
    ∷ (390, 1)
    ∷ (469, 1)
    ∷ (586, 1)
    ∷ (782, 1)
    ∷ (938, 1)
    ∷ (1173, 1)
    ∷ (1562, 1)
    ∷ (1872, 1)
    ∷ (2343, 1)
    ∷ (3120, 1)
    ∷ (3736, 1)
    ∷ (4670, 1)
    ∷ []

module _ (fl : Floats) where
  open fl use {
    Float, Double, decimal, less, at_most, widen, of_int, add, subtract, multiply, divide, ceiling,
    below, reaches,
  }

  abbrev pub zero_float : Float
  zero_float = decimal 0 0

  unfoldable pub on_raster : List (ℕ × ℕ) → Float → Bool
  on_raster [] bw = false
  on_raster ((n, k) ∷ allowed) bw =
      let rest = on_raster allowed bw in if float_equal fl bw (decimal n k) then true else rest

  unfoldable pub lora_bandwidth_valid : Float → Bool
  lora_bandwidth_valid bw = on_raster lora_bandwidths bw

  -- Symbol time in ms.
  abbrev pub symbol_ms : ℕ → Float → Double
  symbol_ms sf bw_khz =
      multiply (divide (of_int (pos (2 ^ sf))) (multiply (widen bw_khz) (of_int (pos 1000))))
        (of_int (pos 1000))

  unfoldable pub lora_ldro_required : ℤ → Float → Bool
  lora_ldro_required (negsuc n) bw_khz = false
  lora_ldro_required (pos sf) bw_khz =
      if at_most bw_khz zero_float then false else reaches (symbol_ms sf bw_khz) (of_int (pos 16))

  unfoldable pub fsk_bitrate_valid : Float → Bool
  fsk_bitrate_valid br = at_most (decimal 5 1) br && at_most br (decimal 300 0)

  unfoldable pub fsk_freqdev_valid_family : ChipFamily → Float → Bool
  fsk_freqdev_valid_family family freqdev =
      if not (less zero_float freqdev && at_most freqdev (decimal 200 0))
      then false
      else elim family [ sx1262 ↦ at_most (decimal 6 1) freqdev | sx127x ↦ true ]

  unfoldable pub fsk_rxbw_valid_family : ChipFamily → Float → Bool
  fsk_rxbw_valid_family sx1262 bw = on_raster rx_bandwidths_sx126x bw
  fsk_rxbw_valid_family sx127x bw = on_raster rx_bandwidths bw

  unfoldable pub freq_valid_band : Float → Float → Float → Bool
  freq_valid_band min_mhz max_mhz freq_mhz =
      if not (less zero_float min_mhz) || not (less min_mhz max_mhz)
      then false
      else at_most min_mhz freq_mhz && at_most freq_mhz max_mhz

  -- A negative airtime is an error. sf, cr and preamble below the limits have no natural number.
  unfoldable pub lora_airtime_ms : ℤ → Float → ℤ → ℤ → ℕ → Double
  lora_airtime_ms (pos sf) bw_khz (pos cr) (pos preamble) payload_len =
      if ltb sf 6 || at_most bw_khz zero_float || ltb cr 5
      then of_int (negsuc 0)
      else (let de = if lora_ldro_required (pos sf) bw_khz then 1 else 0 in
          let num =
            add
              (add
                (subtract (multiply (of_int (pos 8)) (of_int (pos payload_len)))
                  (multiply (of_int (pos 4)) (of_int (pos sf))))
                (of_int (pos 28)))
              (of_int (pos 16)) in
          let den = multiply (of_int (pos 4)) (of_int (pos (sf - 2 * de))) in
          let payload_sym =
            if below (of_int (pos 0)) num
            then add (of_int (pos 8)) (multiply (ceiling (divide num den)) (of_int (pos cr)))
            else of_int (pos 8) in
          multiply
            (add (add (of_int (pos preamble)) (divide (of_int (pos 17)) (of_int (pos 4))))
              payload_sym)
            (symbol_ms sf bw_khz))
  lora_airtime_ms _ _ _ _ _ = of_int (negsuc 0)

  unfoldable pub fsk_airtime_ms : Float → ℤ → ℕ → Double
  fsk_airtime_ms br_kbps (negsuc n) payload_len = of_int (negsuc 0)
  fsk_airtime_ms br_kbps (pos preamble_bits) payload_len =
      if at_most br_kbps zero_float
      then of_int (negsuc 0)
      else (let bits =
            add (of_int (pos preamble_bits))
              (multiply (of_int (pos 8)) (add (of_int (pos payload_len)) (of_int (pos 10)))) in
          multiply (divide bits (multiply (widen br_kbps) (of_int (pos 1000)))) (of_int (pos 1000)))
