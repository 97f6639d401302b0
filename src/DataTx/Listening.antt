-- ===== src/DataTx/Listening.antt =====
-- The main thread listens before it sends.
use lo_ra_ham_daemon.Base.{
  All, Bool, Bool-cases, List, [], arith, false, if◌then◌else◌, inl, inr, leb, length, refl, some,
  suc, sym, true, zero, ℕ, ◌+◌, ◌<◌, ◌==◌, ◌∷◌, ◌≡◌, ◌≢◌, ◌≤◌,
}
use mathlib.Core.Path.{subst}
use lo_ra_ham_daemon.TxJob.{managed}
use lo_ra_ham_daemon.TxExecutor.{Probe, unavailable, free, busy}
use lo_ra_ham_daemon.DataTx.{
  Decision, go, block, timeout_send, error, wait_loop, wait_channel_free_with_limits_ex, lora,
}

-- What the rounds have found, newest first.
abbrev pub Heard : Type 0
Heard = List (Probe × Bool)

-- A round that the loop goes on from: a channel that answers, and no packet of our own waiting.
abbrev pub Quiet : Probe × Bool → Type 0
Quiet (status, received) = (status ≢ unavailable) × (received ≡ false)

-- The free rounds at the end.
abbrev pub free_run : Heard → ℕ
free_run [] = 0
free_run ((free, _) ∷ heard) = suc (free_run heard)
free_run (_ ∷ heard) = 0

abbrev pub listen : (Heard → Probe × Bool) → Heard → Heard × Probe × Bool
listen answer heard = let found = answer heard in (found ∷ heard, found.0, found.1)

module _ (answer : Heard → Probe × Bool) (required : ℕ) (send_after_timeout : Bool) where
  -- Why the wait ended as it did, after at most `limit` rounds.
  pub data Decided (limit : ℕ) : Heard × Decision → Type 0 where
    was_free :
        (heard : Heard)
        → All Quiet heard
        → length heard ≤ limit
        → required ≤ free_run heard
        → Decided limit (heard, go)
    own_packet :
        (status : Probe) (heard : Heard)
        → All Quiet heard
        → length heard < limit
        → Decided limit ((status, true) ∷ heard, block)
    no_answer :
        (received : Bool) (heard : Heard)
        → All Quiet heard
        → length heard < limit
        → Decided limit ((unavailable, received) ∷ heard, error)
    timed_out :
        (heard : Heard)
        → All Quiet heard
        → length heard ≡ limit
        → Decided limit (heard, if send_after_timeout then timeout_send else block)

  -- The loop from here on, where the rounds so far were quiet.
  abbrev rest_of : ℕ → Heard → Heard × Decision
  rest_of left heard =
      wait_loop (listen answer) (λ w. w) required send_after_timeout left (free_run heard) heard

  round-Decided :
      (left : ℕ) (heard : Heard) (a : Probe × Bool)
      → answer heard ≡ a
      → All Quiet heard
      → ((x : Probe × Bool)
          → Quiet x
          → Decided (suc left + length heard) (rest_of left (x ∷ heard)))
      → Decided (suc left + length heard) (rest_of (suc left) heard)
  unfolding wait_loop
  round-Decided left heard (unavailable, r) e q next =
      let ends : rest_of (suc left) heard ≡ ((unavailable, r) ∷ heard, error) = ground arith in
      subst (Decided (suc left + length heard)) (sym ends)
        (Decided.no_answer r heard q (omega arith))
  round-Decided left heard (free, true) e q next =
      let ends : rest_of (suc left) heard ≡ ((free, true) ∷ heard, block) = ground arith in
      subst (Decided (suc left + length heard)) (sym ends)
        (Decided.own_packet free heard q (omega arith))
  round-Decided left heard (busy, true) e q next =
      let ends : rest_of (suc left) heard ≡ ((busy, true) ∷ heard, block) = ground arith in
      subst (Decided (suc left + length heard)) (sym ends)
        (Decided.own_packet busy heard q (omega arith))
  round-Decided left heard (busy, false) e q next =
      let on : rest_of (suc left) heard ≡ rest_of left ((busy, false) ∷ heard) = ground arith in
      subst (Decided (suc left + length heard)) (sym on) (next (busy, false) (λ c. cc, refl))
  round-Decided left heard (free, false) e q next =
      let up : free_run heard + 1 ≡ suc (free_run heard) = omega arith in
      elim (Bool-cases (leb required (free_run heard + 1))) [
        | inl enough ↦
            let ends : rest_of (suc left) heard ≡ ((free, false) ∷ heard, go) = ground arith in
            subst (Decided (suc left + length heard)) (sym ends) (
              Decided.was_free ((free, false) ∷ heard) ((λ c. cc, refl), q) (omega arith)
                (ground arith))
        | inr more ↦
            let on : rest_of (suc left) heard ≡ rest_of left ((free, false) ∷ heard) =
              ground arith in
            subst (Decided (suc left + length heard)) (sym on) (next (free, false) (λ c. cc, refl))
      ]

  wait_loop-Decided :
      (left : ℕ) (heard : Heard)
      → All Quiet heard
      → Decided (left + length heard) (
          wait_loop
            (listen answer)
            (λ w. w)
            required
            send_after_timeout
            left
            (free_run heard)
            heard)
  unfolding wait_loop
  wait_loop-Decided zero heard q = Decided.timed_out heard q (omega arith)
  wait_loop-Decided (suc left) heard q = round-Decided left heard (answer heard) refl q (λ x quiet.
      let longer : left + suc (length heard) ≡ suc left + length heard = omega arith in
      subst (λ n. Decided n (rest_of left (x ∷ heard))) longer
        (wait_loop-Decided left (x ∷ heard) (quiet, q)))

-- Listening before a managed transmission of a LoRa radio, on any channel and whatever becomes of
-- our own reception, ends within its rounds, and for one of these reasons. It goes ahead after
-- enough free rounds in a row (one where none is asked for). It declines because a received packet
-- of our own waits to be read, also where sending after the time is up is allowed. It fails with a
-- probe that does not answer. Or its rounds are used up, and then it sends or declines as it was
-- told. In every round before the last one the channel answered and no packet of our own was
-- waiting.
pub wait_channel_free-Decided :
    (answer : Heard → Probe × Bool) (max_ticks stable_idle_ticks : ℕ) (send_after_timeout : Bool)
    → Decided answer
        (if stable_idle_ticks == 0 then 1 else stable_idle_ticks)
        send_after_timeout
        max_ticks
        (wait_channel_free_with_limits_ex
          (listen answer)
          (λ w. w)
          (some lora)
          managed
          max_ticks
          stable_idle_ticks
          send_after_timeout
          [])
unfolding wait_channel_free_with_limits_ex
wait_channel_free-Decided answer max_ticks stable_idle_ticks send_after_timeout =
    let required = if stable_idle_ticks == 0 then 1 else stable_idle_ticks in
    let rounds : max_ticks + 0 ≡ max_ticks = omega arith in
    subst
      (λ n.
        Decided answer required send_after_timeout n
          (rest_of answer required send_after_timeout max_ticks []))
      rounds (wait_loop-Decided answer required send_after_timeout max_ticks [] tt)
