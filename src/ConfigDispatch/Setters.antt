-- ===== src/ConfigDispatch/Setters.antt =====
-- The runtime setters.
use lo_ra_ham_daemon.Base.{
  All, All-append, Bool-cases, List, arith, inl, inr, not, refl, some, take, ℕ, ◌&&◌, ◌||◌, ◌≡◌,
  ◌≤◌,
}
use mathlib.Core.Path.{subst}
use lo_ra_ham_daemon.ConfigValue.{Floats}
use lo_ra_ham_daemon.ConfigValidate.{Board}
use lo_ra_ham_daemon.ConfigApply.{
  Driver, RfDefaults, Status, applied, hw_error, ok_no_radio, rejected_invalid, rejected_malformed,
  unknown,
}
use lo_ra_ham_daemon.ConfigApply.{parse_and_apply_config}
use lo_ra_ham_daemon.ConfigParser.{uppercase, touches_radio}
use lo_ra_ham_daemon.RxRearm.{is_ready}
use lo_ra_ham_daemon.ConfigStatus.{
  is_set_txqueue, is_set_txresult, is_set_txmode, is_set_cadmonitor, is_set_cadtxaftertimeout,
  is_set_cadrssi, is_set_cadwait, is_set_cadidle, is_set_cadpoll,
}
use lo_ra_ham_daemon.ConfigStatus.Ranges.{
  IsThreshold, is_set_cadrssi_range, is_set_cadwait_range, is_set_cadidle_range,
  is_set_cadpoll_range,
}
use lo_ra_ham_daemon.ConfigDispatch.First.{first_of-elim, parsed_or-elim, handle-elim, when-elim}
use lo_ra_ham_daemon.ConfigDispatch.{
  Controller, tests, Receiver, Reports, Jobs, is_busy, first_of, report_lines, runtime_setters,
  Handled, set_txresult, set_txqueue, set_txmode, set_cadrssi, set_cadmonitor, set_cadwait,
  set_cadidle, set_cadpoll, set_cadtxaftertimeout, refuse_reserved, after_apply, configure,
  apply_line,
}

-- The timing that the setters leave.
pub record IsTimed {F D : Type 0} (c : Controller F D) : Type 0 where
  pub wait : (50 ≤ c.cad_wait_timeout_ms) × (c.cad_wait_timeout_ms ≤ 5000)
  pub idle : c.cad_idle_stable_ms ≤ 2000
  pub poll : (10 ≤ c.cad_poll_interval_ms) × (c.cad_poll_interval_ms ≤ 500)
  pub threshold : IsThreshold c.cad_rssi_threshold_dbm

module _ {F D : Type 0} where
  abbrev Timed : Controller F D → Handled F D → Type 0
  Timed c o = (r : List ℕ × Controller F D) → o ≡ some r → IsTimed r.1

  module _ (c : Controller F D) (t : IsTimed c) (upper : List ℕ) where
    timed :
        (c' : Controller F D)
        → c'.cad_wait_timeout_ms ≡ c.cad_wait_timeout_ms
        → c'.cad_idle_stable_ms ≡ c.cad_idle_stable_ms
        → c'.cad_poll_interval_ms ≡ c.cad_poll_interval_ms
        → c'.cad_rssi_threshold_dbm ≡ c.cad_rssi_threshold_dbm
        → IsTimed c'
    timed c' w i p r = record {
      wait = rw w t.wait;
      idle = rw i t.idle;
      poll = rw p t.poll;
      threshold = rw r t.threshold;
    }

    set_cadwait-Timed : Timed c (set_cadwait c upper)
    unfolding set_cadwait
    set_cadwait-Timed =
        handle-elim (λ r. IsTimed r.1) (is_set_cadwait upper) _
          (λ ms e. record {
            wait = is_set_cadwait_range upper ms e;
            idle = t.idle;
            poll = t.poll;
            threshold = t.threshold;
          })

    set_txresult-Timed : Timed c (set_txresult c upper)
    unfolding set_txresult
    set_txresult-Timed =
        handle-elim (λ r. IsTimed r.1) (is_set_txresult upper) _
          (λ v e. timed _ refl refl refl refl)

    set_txmode-Timed : Timed c (set_txmode c upper)
    unfolding set_txmode
    set_txmode-Timed =
        handle-elim (λ r. IsTimed r.1) (is_set_txmode upper) _ (λ v e. timed _ refl refl refl refl)

    set_cadmonitor-Timed : Timed c (set_cadmonitor c upper)
    unfolding set_cadmonitor
    set_cadmonitor-Timed =
        handle-elim (λ r. IsTimed r.1) (is_set_cadmonitor upper) _
          (λ v e. timed _ refl refl refl refl)

    set_cadtxaftertimeout-Timed : Timed c (set_cadtxaftertimeout c upper)
    unfolding set_cadtxaftertimeout
    set_cadtxaftertimeout-Timed =
        handle-elim (λ r. IsTimed r.1) (is_set_cadtxaftertimeout upper) _
          (λ v e. timed _ refl refl refl refl)

    set_cadidle-Timed : Timed c (set_cadidle c upper)
    unfolding set_cadidle
    set_cadidle-Timed =
        handle-elim (λ r. IsTimed r.1) (is_set_cadidle upper) _
          (λ v e. record {
            wait = t.wait;
            idle = is_set_cadidle_range upper v e;
            poll = t.poll;
            threshold = t.threshold;
          })

    set_cadpoll-Timed : Timed c (set_cadpoll c upper)
    unfolding set_cadpoll
    set_cadpoll-Timed =
        handle-elim (λ r. IsTimed r.1) (is_set_cadpoll upper) _
          (λ v e. record {
            wait = t.wait;
            idle = t.idle;
            poll = is_set_cadpoll_range upper v e;
            threshold = t.threshold;
          })

    set_cadrssi-Timed : Timed c (set_cadrssi c upper)
    unfolding set_cadrssi
    set_cadrssi-Timed =
        handle-elim (λ r. IsTimed r.1) (is_set_cadrssi upper) _
          (λ v e. record {
            wait = t.wait;
            idle = t.idle;
            poll = t.poll;
            threshold = is_set_cadrssi_range upper v e;
          })

    set_txqueue-Timed : (jobs : Jobs) → Timed c (set_txqueue jobs c upper)
    unfolding set_txqueue
    set_txqueue-Timed jobs =
        handle-elim (λ r. IsTimed r.1) (is_set_txqueue upper) _
          (λ enabled e. elim (Bool-cases (not enabled && is_busy jobs)) [
            | inl b ↦ rw b t
            | inr b ↦ rw b (timed _ refl refl refl refl)
          ])

    refuse_reserved-Timed : Timed c (refuse_reserved c upper)
    unfolding refuse_reserved
    refuse_reserved-Timed (text, c') e =
        let same : c ≡ c' = ground (arith, e) in subst IsTimed same t

    runtime_setters-Timed : (jobs : Jobs) → All (Timed c) (runtime_setters jobs c upper)
    runtime_setters-Timed jobs = (
      set_txresult-Timed,
      (
        set_txqueue-Timed jobs,
        (
          set_txmode-Timed,
          (
            set_cadrssi-Timed,
            (
              set_cadmonitor-Timed,
              (
                set_cadwait-Timed,
                (
                  set_cadidle-Timed,
                  (set_cadpoll-Timed, (set_cadtxaftertimeout-Timed, (refuse_reserved-Timed, tt))),
                ),
              ),
            ),
          ),
        ),
      ),
    )

    report_lines-Timed : (reports : Reports F D) → All (Timed c) (report_lines reports c upper)
    report_lines-Timed reports =
        let same = when-elim (λ r. IsTimed r.1) in
        (
          same _ _ (λ _. t),
          (
            same _ _ (λ _. t),
            (same _ _ (λ _. t), (same _ _ (λ _. timed _ refl refl refl refl), tt)),
          ),
        )

  after_apply-Timed :
      (rx : Receiver D) (status : Status) (c : Controller F D)
      → IsTimed c
      → IsTimed (after_apply rx status c)
  unfolding after_apply
  after_apply-Timed rx applied c t = record {
    wait = t.wait;
    idle = t.idle;
    poll = t.poll;
    threshold = t.threshold;
  }
  after_apply-Timed rx hw_error c t = record {
    wait = t.wait;
    idle = t.idle;
    poll = t.poll;
    threshold = t.threshold;
  }
  after_apply-Timed rx ok_no_radio c t = t
  after_apply-Timed rx rejected_invalid c t = t
  after_apply-Timed rx rejected_malformed c t = t
  after_apply-Timed rx unknown c t = t

module _ (fl : Floats) (rf : RfDefaults fl.Float) {D : Type 0} (board : Board fl) (calls : Driver D)
    (rx : Receiver D) (reports : Reports fl.Float D) where
  configure-IsTimed :
      (jobs : Jobs) (c : Controller fl.Float D) (line : List ℕ)
      → IsTimed c
      → IsTimed (configure fl rf board calls rx reports jobs c line).1
  unfolding configure
  configure-IsTimed jobs c line t =
      let r = parse_and_apply_config fl rf board calls line c.radio in
      elim (Bool-cases (not c.has_driver || not (is_ready c.rearm.health))) [
        | inl gone ↦ rw gone t
        | inr there ↦ elim (Bool-cases (touches_radio line && is_busy jobs)) [
          | inl busy ↦ rw (there, busy) t
          | inr idle ↦
              rw (there, idle)
                (after_apply-Timed rx r.0 (record c { radio = r.1 })
                  (record { wait = t.wait; idle = t.idle; poll = t.poll; threshold = t.threshold }))
        ]
      ]

  -- However a client writes a line, the timing of the channel access stays within its limits: the
  -- wait from 50 to 5000 ms, the idle time up to 2000 ms, the poll interval from 10 to 500 ms (so
  -- never 0), and the threshold from -130 to 0 dBm.
  pub apply_line-IsTimed :
      (jobs : Jobs) (c : Controller fl.Float D) (line : List ℕ)
      → IsTimed c
      → IsTimed (apply_line fl rf board calls rx reports jobs c line).1
  unfolding apply_line
  apply_line-IsTimed jobs c line t =
      let upper = uppercase (take 255 line) in
      parsed_or-elim (λ r. IsTimed r.1) (first_of (tests reports jobs c upper))
        (configure fl rf board calls rx reports jobs c line)
        (first_of-elim (λ r. IsTimed r.1) (tests reports jobs c upper)
          (All-append (Timed c) (report_lines reports c upper) (runtime_setters jobs c upper)
            (report_lines-Timed c t upper reports) (runtime_setters-Timed c t upper jobs)))
        (λ _. configure-IsTimed jobs c line t)
