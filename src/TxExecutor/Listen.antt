-- ===== src/TxExecutor/Listen.antt =====
-- Listening before talking, against every channel: `answer` says what a probe finds, given what
-- the probes before it found.
use lo_ra_ham_daemon.Base.{
  All, Bool-cases, List, Option, [], ap, arith, false, if◌then◌else◌, inl, inr, leb, length, ltb,
  none, refl, replicate, some, suc, take, true, zero, ℕ, ◌%◌, ◌&&◌, ◌+◌, ◌<◌, ◌==◌, ◌∷◌, ◌≡◌, ◌≢◌,
  ◌≤◌, ◌⊎◌,
}
use Prim.Native.Nat.{bit_or}
use mathlib.Core.Path.{subst}
use native.Mathlib.Decide.{dec_lt}
use lo_ra_ham_daemon.TxOutcome.{TxResult, TxOutcome, from_tx_result}
use lo_ra_ham_daemon.TxJob.{Job, JobResult, result_init}
use lo_ra_ham_daemon.TxExecutor.{
  Probe, unavailable, free, busy, u32_mod, Environment, execute_with_sender, pause, tick, cad_loop,
  execute_with_sender_and_cad,
}

-- What an observer has seen: the probes' findings and the packets on air, newest first.
pub record Air : Type 0 where
  pub heard : List Probe
  pub sent : List Job

abbrev pub silent : Air
silent = record { heard = []; sent = [] }

pub found_cases : (p : Probe) → (p ≡ unavailable) ⊎ ((p ≡ busy) ⊎ (p ≡ free))
found_cases unavailable = inl refl
found_cases busy = inr (inl refl)
found_cases free = inr (inr refl)

module _ (answer : List Probe → Probe) (radio : Job → TxResult) where
  abbrev pub probe_air : Air → ℕ → Air × Probe
  probe_air w band = let found = answer w.heard in (record w { heard = found ∷ w.heard }, found)

  abbrev pub on_air : Environment Air
  on_air = record {
    send_fn = some (λ w job. (record w { sent = job ∷ w.sent }, radio job));
    cad_probe_fn = some probe_air;
    sleep_fn = none;
  }

  abbrev pub IsAvailable : Probe → Type 0
  IsAvailable p = p ≢ unavailable

  abbrev report : Job → Job → JobResult
  report job sent_job = record (result_init (some sent_job) (from_tx_result (radio sent_job))) {
    tx_result = radio sent_job;
  }

  -- The four ways in which listening ends.
  pub data Ends (job : Job) (stable : ℕ) : Air × JobResult → Type 0 where
    -- the channel was free at the last `stable` probes: the packet is sent as it is
    clear :
        (heard : List Probe)
        → take stable heard ≡ replicate stable free
        → stable ≤ length heard
        → (0 < job.cad_wait_ticks → length heard ≤ job.cad_wait_ticks)
        → All IsAvailable heard
        → Ends job stable (record { heard = heard; sent = job ∷ [] }, report job job)
    -- the time is up, and the job allows to send all the same: the packet is marked
    late :
        (heard : List Probe)
        → length heard ≡ job.cad_wait_ticks
        → job.cad_send_after_timeout ≡ true
        → All IsAvailable heard
        → Ends job stable (
          record { heard = heard; sent = record job { flags = bit_or job.flags 4 } ∷ [] },
          report job (record job { flags = bit_or job.flags 4 }),
        )
    -- the time is up: nothing is sent
    blocked :
        (heard : List Probe)
        → length heard ≡ job.cad_wait_ticks
        → job.cad_send_after_timeout ≡ false
        → All IsAvailable heard
        → Ends job stable
            (record { heard = heard; sent = [] }, result_init (some job) TxOutcome.channel_busy)
    -- a probe failed: nothing is sent, at once
    broken :
        (heard : List Probe)
        → All IsAvailable heard
        → Ends job stable (
          record { heard = unavailable ∷ heard; sent = [] },
          result_init (some job) TxOutcome.radio_error,
        )

  module _ (job : Job) (stable : ℕ) (stable_pos : 0 < stable) (stable_fits : stable < u32_mod)
      (wait_fits : job.cad_wait_ticks < u32_mod) where
    record Inv (idle elapsed : ℕ) (heard : List Probe) : Type 0 where
      run : take idle heard ≡ replicate idle free
      run_in : idle ≤ length heard
      run_short : idle < stable
      time : 0 < job.cad_wait_ticks → (length heard ≡ elapsed) × (elapsed < job.cad_wait_ticks)
      available : All IsAvailable heard

    -- The end of a round whose finding is the first of `heard`.
    tick-Ends :
        (again : ℕ → Air → Option (Air × JobResult)) (idle elapsed : ℕ) (heard : List Probe)
        {out : Air × JobResult}
        → take idle heard ≡ replicate idle free
        → idle ≤ length heard
        → idle < stable
        → (0 < job.cad_wait_ticks → (length heard ≡ elapsed + 1) × (elapsed < job.cad_wait_ticks))
        → All IsAvailable heard
        → ((next : ℕ)
            → Inv idle next heard
            → again next (record { heard = heard; sent = [] }) ≡ some out
            → Ends job stable out)
        → tick on_air job elapsed (record { heard = heard; sent = [] }) again ≡ some out
        → Ends job stable out
    unfolding tick pause execute_with_sender
    tick-Ends again idle elapsed heard r i sh t av ih e =
        let next = (elapsed + 1) % u32_mod in
        elim (Bool-cases (ltb 0 job.cad_wait_ticks && leb job.cad_wait_ticks next)) [
          | inr more ↦
              ih next
                (record {
                  run = r;
                  run_in = i;
                  run_short = sh;
                  time = λ p. ground (arith, t p);
                  available = av;
                })
                (ground arith)
          | inl over ↦
              let full : length heard ≡ job.cad_wait_ticks = ground (arith, t (ground arith)) in
              elim (Bool-cases job.cad_send_after_timeout) [
                | inl send ↦ subst (Ends job stable) (ground arith) (late heard full send av)
                | inr stop ↦ subst (Ends job stable) (ground arith) (blocked heard full stop av)
              ]
        ]

    cad_loop-Ends :
        (fuel idle elapsed : ℕ) (heard : List Probe) {out : Air × JobResult}
        → Inv idle elapsed heard
        → cad_loop on_air probe_air job stable fuel idle elapsed
            (record { heard = heard; sent = [] })
          ≡ some out
        → Ends job stable out
    unfolding cad_loop execute_with_sender
    cad_loop-Ends zero idle elapsed heard v e = cc
    cad_loop-Ends (suc fuel) idle elapsed heard {out} v e = elim (found_cases (answer heard)) [
      | inl p ↦ subst (Ends job stable) (ground arith) (broken heard v.available)
      | inr (inl p) ↦
          let again = cad_loop on_air probe_air job stable fuel 0 in
          let w : Air = record { heard = busy ∷ heard; sent = [] } in
          let e' : tick on_air job elapsed w again ≡ some out = ground arith in
          tick-Ends again 0 elapsed (busy ∷ heard) refl (omega arith) stable_pos
            (λ q. omega (arith, v.time q)) (λ b. cc, v.available)
            (λ next inv. cad_loop-Ends fuel 0 next (busy ∷ heard) inv) e'
      | inr (inr p) ↦
          let next_idle : (idle + 1) % u32_mod ≡ suc idle = omega (arith, v.run_short) in
          elim (dec_lt (suc idle) stable) [
            | no quiet ↦
                let all_free : suc idle ≡ stable = omega (arith, v.run_short) in
                subst (Ends job stable) (ground arith) (
                  clear (free ∷ heard) (rw (← all_free) (ap (◌∷◌ free) v.run))
                    (omega (arith, v.run_in)) (λ q. omega (arith, v.time q)) (λ b. cc, v.available))
            | yes short ↦
                let again = cad_loop on_air probe_air job stable fuel (suc idle) in
                let w : Air = record { heard = free ∷ heard; sent = [] } in
                let e' : tick on_air job elapsed w again ≡ some out = ground (arith, next_idle) in
                tick-Ends again (suc idle) elapsed (free ∷ heard) (ap (◌∷◌ free) v.run)
                  (omega (arith, v.run_in)) short (λ q. omega (arith, v.time q))
                  (λ b. cc, v.available)
                  (λ next inv. cad_loop-Ends fuel (suc idle) next (free ∷ heard) inv) e'
          ]
    ]

-- The number of free probes in a row that a job asks for; 0 stands for 1.
abbrev pub stable_of : Job → ℕ
stable_of job = if job.cad_idle_stable_ticks == 0 then 1 else job.cad_idle_stable_ticks

-- A job that listens first, its tick counts being of 32 bits, on any channel, when its execution
-- has returned: either it was sent, once, after as many free probes in a row as it asks for and
-- within its waiting time; or its time was up and it was sent once, marked with the timeout flag,
-- as the job allows; or its time was up and nothing was sent; or a probe failed and nothing was
-- sent. No failed probe ever precedes a transmission.
pub execute-Ends :
    (answer : List Probe → Probe) (radio : Job → TxResult) (fuel : ℕ) (job : Job)
    (out : Air × JobResult)
    → job.cad_enabled ≡ true
    → job.cad_wait_ticks < u32_mod
    → job.cad_idle_stable_ticks < u32_mod
    → execute_with_sender_and_cad (on_air answer radio) fuel (some job) silent ≡ some out
    → Ends answer radio job (stable_of job) out
unfolding execute_with_sender_and_cad
execute-Ends answer radio fuel job out on w s e =
    cad_loop-Ends answer radio job (stable_of job) (ground arith) (ground arith) w fuel 0 0 []
      (record {
        run = refl;
        run_in = omega arith;
        run_short = ground arith;
        time = λ q. (refl, q);
        available = tt;
      })
      (ground arith)
