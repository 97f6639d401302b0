-- ===== src/ConfigValidate/Power.antt =====
-- What a board is told to send with.
use lo_ra_ham_daemon.Base.{
  All, All-at, Bool, List, Option, ap, arith, false, none, refl, some, true, ℕ, ◌++◌, ◌∙◌, ◌∷◌, ◌≡◌,
  ◌≤◌,
}
use lo_ra_ham_daemon.Base.Int.{ℤ, pos, negsuc}
use lo_ra_ham_daemon.ConfigValue.{Floats, parse_int_exact}
use lo_ra_ham_daemon.ConfigPolicy.{power_valid_family, between}
use mathlib.Core.Path.{subst}
use lo_ra_ham_daemon.ConfigParser.{ConfigCommand}
use lo_ra_ham_daemon.DataTx.{sx127x, RadioMode, lora, fsk}
use lo_ra_ham_daemon.ConfigValidate.Key
use lo_ra_ham_daemon.ConfigValidate.{
  Board, holds, power_value, fsk_value, lora_value, validate_command, is_lora_only_key,
  is_fsk_only_key,
}
use lo_ra_ham_daemon.ConfigValidate.Accepts.{IsGood, validate_command-IsAcceptable}

holds-some {ℓ} :
    {A : Type ℓ} (valid : A → Bool) (o : Option A)
    → holds valid o ≡ true
    → (a : A) × (o ≡ some a) × (valid a ≡ true)
holds-some valid none h = absurd (ground (arith, h))
holds-some valid (some a) h = (a, refl, h)

between_lem :
    (lo hi : ℕ) (x : ℤ) → between lo hi x ≡ true → (p : ℕ) × (x ≡ pos p) × (lo ≤ p) × (p ≤ hi)
between_lem lo hi (pos n) h = (n, refl, ground (arith, h), ground (arith, h))
between_lem lo hi (negsuc n) h = absurd (ground (arith, h))

sx127x_power :
    (sx1262_max : ℕ) (x : ℤ)
    → power_valid_family sx1262_max sx127x false x ≡ true
    → between 2 17 x ≡ true
unfolding power_valid_family
sx127x_power sx1262_max x h = ground (arith, h)

module _ (fl : Floats) (board : Board fl) where
  good-power :
      (target : RadioMode) (val : List ℕ)
      → IsGood fl board target (Key.power, val)
      → power_value fl board val ≡ true
  unfolding fsk_value lora_value is_lora_only_key is_fsk_only_key
  good-power fsk val (_, h) = h
  good-power lora val (_, h) = h

  -- On an SX127x board that was not started with the permission for high power, a SET command that
  -- the validation lets pass sets no power but one from 2 to 17 dBm, wherever the key stands.
  pub power_permitted :
      (cmd : ConfigCommand) (current : RadioMode) (before behind : List (List ℕ × List ℕ))
      (val : List ℕ)
      → board.chip_family ≡ sx127x
      → board.high_power ≡ false
      → cmd.is_set ≡ true
      → cmd.has_params ≡ true
      → cmd.tokens ≡ before ++ (Key.power, val) ∷ behind
      → ((validate_command fl board cmd current).rejection ≡ none)
      → (p : ℕ) × (parse_int_exact val ≡ some (pos p)) × (2 ≤ p) × (p ≤ 17)
  power_permitted cmd current before behind val family low s p tokens passes =
      let target = (validate_command fl board cmd current).target_mode in
      let a = (validate_command-IsAcceptable fl board cmd current s p).0 passes in
      let good =
        All-at (IsGood fl board target) before (Key.power, val) behind
          (subst (All (IsGood fl board target)) tokens a.good) in
      let (x, parsed, valid) =
        holds-some (power_valid_family board.sx1262_power_max board.chip_family board.high_power)
          (parse_int_exact val) (good-power target val good) in
      let (n, e, lo, hi) =
        between_lem 2 17 x
          (sx127x_power board.sx1262_power_max x (ground (arith, family, low, valid))) in
      (n, parsed ∙ ap some e, lo, hi)
