-- ===== src/TxOutcome.antt =====
-- loraham_daemon/tx_result.h and daemon_tx_outcome.h: what became of a transmission, as the radio
-- reports it, as the daemon passes it on, and as the status byte of a TX_RESULT frame.
use lo_ra_ham_daemon.Base.{Bool, arith, false, if◌then◌else◌, not, refl, ℕ, ◌==◌, ◌↔◌, ◌≡◌, ◌≤◌}
use lo_ra_ham_daemon.Base.Int.{ℤ, pos, negsuc, is_zero}

pub data TxResult : Type 0 where
  ok invalid_band invalid_packet busy cad_timeout radio_not_ready radio_error : TxResult

pub data TxOutcome : Type 0 where
  ok busy channel_busy radio_not_ready radio_error invalid_packet invalid_band : TxOutcome

-- The enumerator's value.
abbrev pub code : TxOutcome → ℕ
code TxOutcome.ok = 0
code TxOutcome.busy = 1
code TxOutcome.channel_busy = 2
code TxOutcome.radio_not_ready = 3
code TxOutcome.radio_error = 4
code TxOutcome.invalid_packet = 5
code TxOutcome.invalid_band = 6

-- On an int, as a packet handler returns it.
unfoldable pub is_failure : ℤ → Bool
is_failure outcome = not (is_zero outcome)

unfoldable pub from_tx_result : TxResult → TxOutcome
from_tx_result TxResult.ok = TxOutcome.ok
from_tx_result TxResult.busy = TxOutcome.busy
from_tx_result TxResult.cad_timeout = TxOutcome.channel_busy
from_tx_result TxResult.radio_not_ready = TxOutcome.radio_not_ready
from_tx_result TxResult.invalid_packet = TxOutcome.invalid_packet
from_tx_result TxResult.invalid_band = TxOutcome.invalid_band
from_tx_result TxResult.radio_error = TxOutcome.radio_error

unfoldable pub to_tx_result : TxOutcome → TxResult
to_tx_result TxOutcome.ok = TxResult.ok
to_tx_result TxOutcome.busy = TxResult.busy
to_tx_result TxOutcome.channel_busy = TxResult.cad_timeout
to_tx_result TxOutcome.radio_not_ready = TxResult.radio_not_ready
to_tx_result TxOutcome.invalid_packet = TxResult.invalid_packet
to_tx_result TxOutcome.invalid_band = TxResult.invalid_band
to_tx_result TxOutcome.radio_error = TxResult.radio_error

unfoldable pub to_framed_status : ℤ → ℕ
to_framed_status (negsuc n) = 4
to_framed_status (pos n) =
    if n == 0
    then 0
    else if n == 1
    then 1
    else if n == 2
    then 2
    else if n == 3
    then 3
    else if n == 5
    then 5
    else if n == 6
    then 6
    else 4

pub from-to_tx_result : (o : TxOutcome) → from_tx_result (to_tx_result o) ≡ o
unfolding from_tx_result to_tx_result
from-to_tx_result TxOutcome.ok = refl
from-to_tx_result _ = refl

-- The result of a transmission survives its way through the outcome, and the status byte tells
-- every outcome from every other; it is 0 exactly for success, and never above 6, so a TX_RESULT
-- frame can always be encoded.
outcome_codes :
    (r : TxResult) (o p : TxOutcome) (i : ℤ)
    → (to_tx_result (from_tx_result r) ≡ r)
      × (from_tx_result (to_tx_result o) ≡ o)
      × (to_framed_status (pos (code o)) ≡ to_framed_status (pos (code p)) → o ≡ p)
      × (to_framed_status i ≤ 6)
      × (is_failure (pos (code o)) ≡ false → o ≡ TxOutcome.ok)
      × ((is_failure i ≡ false) ↔ (to_framed_status i ≡ 0))
unfolding from_tx_result to_tx_result to_framed_status is_failure
outcome_codes r o p i = (round r, from-to_tx_result o, inj o p, small i, fail o, zeros i)
  where
    round : (r : TxResult) → to_tx_result (from_tx_result r) ≡ r
    round TxResult.ok = refl
    round _ = refl

    inj :
        (o p : TxOutcome)
        → to_framed_status (pos (code o)) ≡ to_framed_status (pos (code p))
        → o ≡ p
    inj o p e = ground arith

    small : (i : ℤ) → to_framed_status i ≤ 6
    small (pos n) = ground arith
    small (negsuc n) = omega arith

    fail : (o : TxOutcome) → is_failure (pos (code o)) ≡ false → o ≡ TxOutcome.ok
    fail o e = ground arith

    zeros : (i : ℤ) → (is_failure i ≡ false) ↔ (to_framed_status i ≡ 0)
    zeros (pos n) = (λ e. ground arith, λ e. ground arith)
    zeros (negsuc n) = (λ e. cc, λ e. absurd (omega arith))
