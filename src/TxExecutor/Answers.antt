-- ===== src/TxExecutor/Answers.antt =====
-- What holds of every environment: listening ends within the waiting time, and the result belongs
-- to the job.
use lo_ra_ham_daemon.Base.{
  Bool-cases, Option, Option-cases, arith, if◌then◌else◌, inl, inr, leb, ltb, none, refl, some, suc,
  sym, zero, ℕ, ◌%◌, ◌&&◌, ◌+◌, ◌<◌, ◌==◌, ◌≡◌, ◌≢◌, ◌≤◌, ◌⊎◌,
}
use Prim.Native.Nat.{bit_or}
use mathlib.Core.Path.{subst}
use lo_ra_ham_daemon.Base.Int.{pos}
use lo_ra_ham_daemon.TxOutcome.{
  from-to_tx_result, code, to_framed_status, TxResult, TxOutcome, from_tx_result,
}
use lo_ra_ham_daemon.TxJob.{Job, JobResult, result_init}
use lo_ra_ham_daemon.TxExecutor.Listen.{found_cases, stable_of}
use lo_ra_ham_daemon.TxExecutor.{
  Probe, u32_mod, Environment, execute_with_sender, pause, tick, cad_loop,
  execute_with_sender_and_cad,
}

-- The result belongs to the job: it goes to the client and connection that the job names, under
-- its sequence number; the flags are the job's, or those with the timeout bit; and the three
-- accounts of what happened agree.
pub record Answers (job : Job) (r : JobResult) : Type 0 where
  pub same_seq : r.seq ≡ job.seq
  pub same_slot : r.completion_slot ≡ job.completion_slot
  pub same_generation : r.completion_generation ≡ job.completion_generation
  pub same_flags : (r.flags ≡ job.flags) ⊎ (r.flags ≡ bit_or job.flags 4)
  pub outcome_agrees : r.outcome ≡ from_tx_result r.tx_result
  pub status_agrees : r.framed_status ≡ to_framed_status (pos (code r.outcome))

init-Answers : (job : Job) (o : TxOutcome) → Answers job (result_init (some job) o)
unfolding result_init
init-Answers job o = record {
  same_seq = refl;
  same_slot = refl;
  same_generation = refl;
  same_flags = inl refl;
  outcome_agrees = sym (from-to_tx_result o);
  status_agrees = refl;
}

sent-Answers :
    (job : Job) (r : TxResult)
    → Answers job (record (result_init (some job) (from_tx_result r)) { tx_result = r })
unfolding result_init
sent-Answers job r = record {
  same_seq = refl;
  same_slot = refl;
  same_generation = refl;
  same_flags = inl refl;
  outcome_agrees = refl;
  status_agrees = refl;
}

-- A job sent late carries its mark.
late-Answers :
    {job : Job} {r : JobResult}
    → Answers (record job { flags = bit_or job.flags 4 }) r
    → r.flags ≡ bit_or job.flags 4
    → Answers job r
late-Answers a f = record {
  same_seq = a.same_seq;
  same_slot = a.same_slot;
  same_generation = a.same_generation;
  same_flags = inr f;
  outcome_agrees = a.outcome_agrees;
  status_agrees = a.status_agrees;
}

module _ {W : Type 0} (env : Environment W) where
  cad_loop-ne-none :
      (probe : W → ℕ → W × Probe) (job : Job) (stable fuel idle elapsed : ℕ) (w : W)
      → elapsed < job.cad_wait_ticks
      → job.cad_wait_ticks < u32_mod
      → job.cad_wait_ticks ≤ elapsed + fuel
      → cad_loop env probe job stable fuel idle elapsed w ≢ none
  unfolding cad_loop tick
  cad_loop-ne-none probe job stable zero idle elapsed w a b c = absurd (omega arith)
  cad_loop-ne-none probe job stable (suc fuel) idle elapsed w a b c =
      let next : (elapsed + 1) % u32_mod ≡ elapsed + 1 = omega arith in
      let again = λ (idle : ℕ). cad_loop-ne-none probe job stable fuel idle (elapsed + 1) in
      ground (
        arith,
        next,
        again ((idle + 1) % u32_mod) (pause env job (probe w job.band).0),
        again 0 (pause env job (probe w job.band).0),
      )

  execute-ne-none :
      (fuel : ℕ) (job : Job) (w : W)
      → 0 < job.cad_wait_ticks
      → job.cad_wait_ticks < u32_mod
      → job.cad_wait_ticks ≤ fuel
      → execute_with_sender_and_cad env fuel (some job) w ≢ none
  unfolding execute_with_sender_and_cad
  execute-ne-none fuel job w waits fits enough = elim (Option-cases env.cad_probe_fn) [
    | inl e ↦ ground arith
    | inr (probe, e) ↦ ground (
      arith,
      cad_loop-ne-none probe job
          (if job.cad_idle_stable_ticks == 0 then 1 else job.cad_idle_stable_ticks) fuel 0 0 w waits
          fits,
    )
  ]

  -- The execution of a job with a waiting time of 32 bits returns, whatever the probes find: one
  -- round for each tick of that time is enough.
  pub execute_returns :
      (fuel : ℕ) (job : Job) (w : W)
      → 0 < job.cad_wait_ticks
      → job.cad_wait_ticks < u32_mod
      → job.cad_wait_ticks ≤ fuel
      → (out : W × JobResult) × (execute_with_sender_and_cad env fuel (some job) w ≡ some out)
  execute_returns fuel job w waits fits enough =
      elim (Option-cases (execute_with_sender_and_cad env fuel (some job) w)) [
        | inl e ↦ absurd (execute-ne-none fuel job w waits fits enough e)
        | inr r ↦ r
      ]

  send-Answers : (job : Job) (w : W) → Answers job (execute_with_sender env (some job) w).1
  unfolding execute_with_sender result_init
  send-Answers job w = elim (Option-cases env.send_fn) [
    | inl e ↦ subst (Answers job) (ground arith) (init-Answers job TxOutcome.radio_error)
    | inr (send, e) ↦ subst (Answers job) (ground arith) (sent-Answers job (send w job).1)
  ]

  send_flags : (job : Job) (w : W) → (execute_with_sender env (some job) w).1.flags ≡ job.flags
  unfolding execute_with_sender result_init
  send_flags job w = ground arith

  tick-Answers :
      (job : Job) (elapsed : ℕ) (w : W) (again : ℕ → W → Option (W × JobResult))
      {out : W × JobResult}
      → ((next : ℕ) (u : W) → again next u ≡ some out → Answers job out.1)
      → tick env job elapsed w again ≡ some out
      → Answers job out.1
  unfolding tick
  tick-Answers job elapsed w again {out} ih e =
      let next = (elapsed + 1) % u32_mod in
      let marked = record job { flags = bit_or job.flags 4 } in
      elim (Bool-cases (ltb 0 job.cad_wait_ticks && leb job.cad_wait_ticks next)) [
        | inr more ↦ ih next (pause env job w) (ground arith)
        | inl over ↦ elim (Bool-cases job.cad_send_after_timeout) [
          | inl send ↦
              subst (λ (o : W × JobResult). Answers job o.1)
                (let p : execute_with_sender env (some marked) w ≡ out = ground arith in p)
                (late-Answers (send-Answers marked w) (send_flags marked w))
          | inr stop ↦
              subst (λ (o : W × JobResult). Answers job o.1)
                (let p : (w, result_init (some job) TxOutcome.channel_busy) ≡ out = ground arith in
                  p)
                (init-Answers job TxOutcome.channel_busy)
        ]
      ]

  cad_loop-Answers :
      (probe : W → ℕ → W × Probe) (job : Job) (stable fuel idle elapsed : ℕ) (w : W)
      {out : W × JobResult}
      → cad_loop env probe job stable fuel idle elapsed w ≡ some out
      → Answers job out.1
  unfolding cad_loop
  cad_loop-Answers probe job stable zero idle elapsed w e = cc
  cad_loop-Answers probe job stable (suc fuel) idle elapsed w {out} e =
      let w' = (probe w job.band).0 in
      let more = λ (i : ℕ).
        tick-Answers job elapsed w' (cad_loop env probe job stable fuel i) {out = out}
          (λ next u. cad_loop-Answers probe job stable fuel i next u) in
      elim (found_cases (probe w job.band).1) [
        | inl p ↦
            subst (λ (o : W × JobResult). Answers job o.1)
              (let q : (w', result_init (some job) TxOutcome.radio_error) ≡ out = ground arith in q)
              (init-Answers job TxOutcome.radio_error)
        | inr (inl p) ↦ more 0 (ground arith)
        | inr (inr p) ↦ elim (Bool-cases (leb stable ((idle + 1) % u32_mod))) [
          | inl quiet ↦
              subst (λ (o : W × JobResult). Answers job o.1)
                (let q : execute_with_sender env (some job) w' ≡ out = ground arith in q)
                (send-Answers job w')
          | inr short ↦ more ((idle + 1) % u32_mod) (ground arith)
        ]
      ]

  -- Whatever the environment does, when the execution of a job has returned, its result goes to
  -- the client and connection that the job names, under its sequence number, with the job's flags
  -- or those and the timeout bit, and with one consistent account of what happened.
  pub execute-Answers :
      (fuel : ℕ) (job : Job) (w : W) (out : W × JobResult)
      → execute_with_sender_and_cad env fuel (some job) w ≡ some out
      → Answers job out.1
  unfolding execute_with_sender_and_cad
  execute-Answers fuel job w out e = elim (Bool-cases job.cad_enabled) [
    | inr off ↦
        subst (λ (o : W × JobResult). Answers job o.1)
          (let q : execute_with_sender env (some job) w ≡ out = ground arith in q)
          (send-Answers job w)
    | inl on ↦ elim (Option-cases env.cad_probe_fn) [
      | inl p ↦
          subst (λ (o : W × JobResult). Answers job o.1)
            (let q : execute_with_sender env (some job) w ≡ out = ground arith in q)
            (send-Answers job w)
      | inr (probe, p) ↦
          cad_loop-Answers probe job (stable_of job) fuel 0 0 w {out = out} (ground arith)
    ]
  ]
