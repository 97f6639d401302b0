-- ===== src/TxQueue/Drain.antt =====
-- Draining runs the waiting jobs in order, up to a limit.
use lo_ra_ham_daemon.Base.{
  Bool-cases, List, [], arith, drop, if◌then◌else◌, inl, inr, ltb, min, refl, suc, take, zero, ℕ,
  ◌&&◌, ◌+◌, ◌-◌, ◌<◌, ◌==◌, ◌||◌, ◌∷◌, ◌≡◌,
}
use lo_ra_ham_daemon.TxQueue.{TxQueue, drain_loop, drain}
use lo_ra_ham_daemon.TxQueue.Fifo.{IsRing, to_list, pop_cases}

-- How many jobs are taken: all of them where the limit is 0.
abbrev pub quota : ℕ → ℕ → ℕ
quota max_jobs n = if max_jobs == 0 then n else min max_jobs n

abbrev pub run_all : {A S : Type 0} → (S → A → S) → S → List A → S
run_all run s [] = s
run_all run s (job ∷ jobs) = run_all run (run s job) jobs

-- What is left to take after `processed` rounds.
abbrev left : ℕ → ℕ → ℕ → ℕ
left max_jobs processed n = if max_jobs == 0 then n else min (max_jobs - processed) n

module _ {A S : Type 0} (run : S → A → S) (d : A) (max_jobs : ℕ) where
  -- `r` is what draining k jobs off `q` gives, counted on from `processed`.
  abbrev Drained : ℕ → ℕ → TxQueue A → S → ℕ × TxQueue A × S → Type 0
  Drained k processed q s (n, q', s') =
      (n ≡ processed + k)
      × IsRing d q'
      × (to_list d q' ≡ drop k (to_list d q))
      × (s' ≡ run_all run s (take k (to_list d q)))

  drain_loop-Drained :
      (fuel processed : ℕ) (q : TxQueue A) (s : S)
      → IsRing d q
      → q.count < fuel
      → Drained
          (left max_jobs processed q.count)
          processed
          q
          s
          (drain_loop run d fuel max_jobs processed q s)
  unfolding drain_loop
  drain_loop-Drained zero processed q s v h = absurd (omega arith)
  drain_loop-Drained (suc fuel) processed q s v h =
      elim (Bool-cases (ltb 0 q.count && (max_jobs == 0 || ltb processed max_jobs))) [
        | inr stop ↦
            let nothing : left max_jobs processed q.count ≡ 0 = ground arith in
            rw (stop, drain_loop) (rw nothing (omega arith, v, refl, refl))
        | inl go ↦ elim (pop_cases d q v) [
          | inl (_, _, empty) ↦ absurd (ground arith)
          | inr (job, q', e, v', jobs, less, _) ↦
              let more : left max_jobs processed q.count
                  ≡ suc (left max_jobs (processed + 1) q'.count) =
                ground arith in
              let (n, ring, rest, ran) =
                drain_loop-Drained fuel (processed + 1) q' (run s job) v' (omega arith) in
              rw (go, drain_loop)
                (rw (e, drain_loop) (rw (more, jobs) (omega arith, ring, rest, ran)))
        ]
      ]

-- A drain of a queue in order returns, has run the oldest `quota` jobs in the order in which they
-- were pushed (all of them for the limit 0), returns their number, and leaves the others waiting
-- in order.
pub drain_lem :
    {A S : Type 0} (run : S → A → S) (d : A) (max_jobs : ℕ) (q : TxQueue A) (s : S)
    → IsRing d q
    → let r = drain run d max_jobs q s in
      let k = quota max_jobs q.count in
      (r.0 ≡ k)
      × IsRing d r.1
      × (to_list d r.1 ≡ drop k (to_list d q))
      × (r.2 ≡ run_all run s (take k (to_list d q)))
unfolding drain
drain_lem run d max_jobs q s v =
    let (n, ring, rest, ran) =
      drain_loop-Drained run d max_jobs (q.count + 1) 0 q s v (omega arith) in
    let same : left max_jobs 0 q.count ≡ quota max_jobs q.count = ground arith in
    rw (← same) (omega arith, ring, rest, ran)
