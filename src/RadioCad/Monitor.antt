-- ===== src/RadioCad/Monitor.antt =====
-- The published state of the channel does not flicker.
use lo_ra_ham_daemon.Base.{
  Bool, List, Option, [], ap, arith, false, refl, sym, true, ℕ, ◌++◌, ◌↔◌, ◌∙◌, ◌∷◌, ◌≡◌, ◌≤◌,
}
use lo_ra_ham_daemon.Base.Int.{ℤ}
use lo_ra_ham_daemon.TxExecutor.{Probe}
use lo_ra_ham_daemon.RadioCad.{Levels, Chip, cad_next_busy}

module _ (levels : Levels) {D : Type 0} (chip : Chip levels.Level D) (named : ℤ → Option Probe)
    (threshold : levels.Level) where
  -- The published state and the streak behind all samples, the monitor having just been turned on.
  abbrev pub published : List levels.Level → Bool × ℕ → Bool × ℕ
  published [] s = s
  published (rssi ∷ samples) s =
      published samples (cad_next_busy levels chip named threshold rssi s)

  -- Below the threshold by the hysteresis.
  abbrev pub IsLow : levels.Level → Type 0
  IsLow rssi = (levels.reaches rssi threshold ≡ false) × (levels.is_clear_of rssi threshold ≡ true)

  published-append :
      (xs ys : List levels.Level) (s : Bool × ℕ)
      → published (xs ++ ys) s ≡ published ys (published xs s)
  published-append [] ys s = refl
  published-append (x ∷ xs) ys s =
      published-append xs ys (cad_next_busy levels chip named threshold x s)

  cad_next_busy_short :
      (rssi : levels.Level) (s : Bool × ℕ)
      → s.1 ≤ 1
      → (cad_next_busy levels chip named threshold rssi s).1 ≤ 1
  unfolding cad_next_busy
  cad_next_busy_short rssi (b, n) h = ground arith

  published_short :
      (samples : List levels.Level) (s : Bool × ℕ) → s.1 ≤ 1 → (published samples s).1 ≤ 1
  published_short [] s h = h
  published_short (x ∷ samples) s h =
      published_short samples (cad_next_busy levels chip named threshold x s)
        (cad_next_busy_short x s h)

  two_samples :
      (a b : levels.Level) (s : Bool × ℕ)
      → s.1 ≤ 1
      → let then = cad_next_busy levels chip named threshold a s in
        then.0 ≡ true
        → ((cad_next_busy levels chip named threshold b then).0 ≡ false) ↔ (IsLow a × IsLow b)
  unfolding cad_next_busy
  two_samples a b (p, n) h e = ground arith

  -- A channel that is published as busy is published as free again at exactly the sample that is the
  -- second in a row below the threshold by the hysteresis; a single such sample, or two with another
  -- between them, do not clear it.
  pub published_clears :
      (samples : List levels.Level) (a b : levels.Level)
      → (published (samples ++ a ∷ []) (false, 0)).0 ≡ true
      → ((published (samples ++ a ∷ b ∷ []) (false, 0)).0 ≡ false) ↔ (IsLow a × IsLow b)
  published_clears samples a b e =
      let s = published samples (false, 0) in
      let busy = ap (λ x. x.0) (sym (published-append samples (a ∷ []) (false, 0))) ∙ e in
      rw (published-append samples (a ∷ b ∷ []) (false, 0))
        (two_samples a b s (published_short samples (false, 0) (omega arith)) busy)
