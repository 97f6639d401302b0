-- ===== src/ConfigDispatch/Protected.antt =====
-- While jobs wait or one is executed.
use lo_ra_ham_daemon.Base.{
  All, All-append, Bool, Bool-cases, List, Option, ap, arith, inl, inr, not, refl, some, take, true,
  ℕ, ◌||◌, ◌∙◌, ◌≡◌, ◌⊎◌,
}
use mathlib.Core.Path.{subst}
use lo_ra_ham_daemon.ConfigValue.{Floats}
use lo_ra_ham_daemon.ConfigParser.{uppercase, touches_radio}
use lo_ra_ham_daemon.ConfigValidate.{Board}
use lo_ra_ham_daemon.ConfigApply.{
  Driver, RfDefaults, Status, applied, hw_error, ok_no_radio, rejected_invalid, rejected_malformed,
  unknown, effective_of, parse_and_apply_config,
}
use lo_ra_ham_daemon.ConfigApply.Untouching.{is_idle, touches_radio-Idle}
use lo_ra_ham_daemon.RxRearm.{is_ready}
use lo_ra_ham_daemon.ConfigStatus.{
  is_get_channel, is_set_txresult, is_set_txqueue, is_set_txmode, is_set_cadrssi, is_set_cadmonitor,
  is_set_cadwait, is_set_cadidle, is_set_cadpoll, is_set_cadtxaftertimeout,
}
use lo_ra_ham_daemon.ConfigDispatch.First.{first_of-elim, parsed_or-elim, handle-elim, when-elim}
use lo_ra_ham_daemon.ConfigDispatch.{
  after_probe, Controller, tests, Receiver, Reports, Jobs, is_busy, first_of, when, handle, Handled,
  set_txresult, set_txqueue, set_txmode, set_cadrssi, set_cadmonitor, set_cadwait, set_cadidle,
  set_cadpoll, set_cadtxaftertimeout, refuse_reserved, runtime_setters, report_lines, after_apply,
  configure, apply_line,
}

module _ (fl : Floats) (rf : RfDefaults fl.Float) {D : Type 0} where
  -- What a packet is sent with, and that it is sent from the queue.
  pub record IsKept (scanned : Bool) (c c' : Controller fl.Float D) : Type 0 where
    pub driver : (c'.radio.driver ≡ c.radio.driver) ⊎ (scanned ≡ true)
    pub mode_flag : c'.radio.mode_flag ≡ c.radio.mode_flag
    pub effective : effective_of fl rf c'.radio.effective ≡ effective_of fl rf c.radio.effective
    pub replay : c'.radio.replay ≡ c.radio.replay
    pub queue : c.tx_queue_active ≡ true → c'.tx_queue_active ≡ true

  IsKept-refl : (scanned : Bool) (c : Controller fl.Float D) → IsKept scanned c c
  IsKept-refl scanned c = record {
    driver = inl refl;
    mode_flag = refl;
    effective = refl;
    replay = refl;
    queue = λ q. q;
  }

  abbrev Kept : Bool → Controller fl.Float D → Handled fl.Float D → Type 0
  Kept scanned c o = (r : List ℕ × Controller fl.Float D) → o ≡ some r → IsKept scanned c r.1

  module _ (jobs : Jobs) (c : Controller fl.Float D) (upper : List ℕ) where
    abbrev scanned : Bool
    scanned = is_get_channel upper

    -- Setters that leave the radio and the queue alone.
    aside :
        {A : Type 0} (o : Option A) (f : A → List ℕ × Controller fl.Float D)
        → ((a : A) → IsKept scanned c (f a).1)
        → (r : List ℕ × Controller fl.Float D) → handle o f ≡ some r
        → IsKept scanned c r.1
    aside o f h = handle-elim (λ r. IsKept scanned c r.1) o f (λ a _. h a)

    set_txqueue-Kept : is_busy jobs ≡ true → Kept scanned c (set_txqueue jobs c upper)
    unfolding set_txqueue
    set_txqueue-Kept busy = aside (is_set_txqueue upper) _ (λ enabled. elim (Bool-cases enabled) [
      | inl on ↦ rw on (record {
        driver = inl refl;
        mode_flag = refl;
        effective = refl;
        replay = refl;
        queue = λ _. refl;
      })
      | inr off ↦ rw (off, busy) (IsKept-refl scanned c)
    ])

    same_radio :
        (c' : Controller fl.Float D)
        → c'.radio ≡ c.radio
        → c'.tx_queue_active ≡ c.tx_queue_active
        → IsKept scanned c c'
    same_radio c' r q = record {
      driver = inl (ap (λ x. x.driver) r);
      mode_flag = ap (λ x. x.mode_flag) r;
      effective = ap (λ x. effective_of fl rf x.effective) r;
      replay = ap (λ x. x.replay) r;
      queue = λ on. q ∙ on;
    }

    refuse_reserved-Kept : Kept scanned c (refuse_reserved c upper)
    unfolding refuse_reserved
    refuse_reserved-Kept (text, c') e =
        let same : c ≡ c' = ground (arith, e) in
        subst (IsKept scanned c) same (IsKept-refl scanned c)

    runtime_setters-Kept : is_busy jobs ≡ true → All (Kept scanned c) (runtime_setters jobs c upper)
    unfolding set_txresult set_txmode set_cadrssi set_cadmonitor set_cadwait set_cadidle set_cadpoll
        set_cadtxaftertimeout
    runtime_setters-Kept busy = (
      aside (is_set_txresult upper) _ (λ _. same_radio _ refl refl),
      (
        set_txqueue-Kept busy,
        (
          aside (is_set_txmode upper) _ (λ _. same_radio _ refl refl),
          (
            aside (is_set_cadrssi upper) _ (λ _. same_radio _ refl refl),
            (
              aside (is_set_cadmonitor upper) _ (λ _. same_radio _ refl refl),
              (
                aside (is_set_cadwait upper) _ (λ _. same_radio _ refl refl),
                (
                  aside (is_set_cadidle upper) _ (λ _. same_radio _ refl refl),
                  (
                    aside (is_set_cadpoll upper) _ (λ _. same_radio _ refl refl),
                    (
                      aside (is_set_cadtxaftertimeout upper) _ (λ _. same_radio _ refl refl),
                      (refuse_reserved-Kept, tt),
                    ),
                  ),
                ),
              ),
            ),
          ),
        ),
      ),
    )

    channel-Kept :
        (reports : Reports fl.Float D)
        → Kept scanned c (
            when scanned (
              (reports.channel c).0,
              record c {
                radio = record (c.radio) { driver = (reports.channel c).1 };
                rearm = after_probe (reports.channel c).2 c.rearm;
              },
            ))
    channel-Kept reports =
        when-elim (λ r. IsKept scanned c r.1) scanned _
          (λ scan. record {
            driver = inr scan;
            mode_flag = refl;
            effective = refl;
            replay = refl;
            queue = λ q. q;
          })

    report_lines-Kept :
        (reports : Reports fl.Float D) → All (Kept scanned c) (report_lines reports c upper)
    report_lines-Kept reports =
        let kept = when-elim (λ r. IsKept scanned c r.1) in
        (
          kept _ _ (λ _. IsKept-refl scanned c),
          (
            kept _ _ (λ _. IsKept-refl scanned c),
            (kept _ _ (λ _. IsKept-refl scanned c), (channel-Kept reports, tt)),
          ),
        )

  module _ (board : Board fl) (calls : Driver D) (rx : Receiver D)
      (reports : Reports fl.Float D) where
    after_apply-idle :
        (status : Status) (c : Controller fl.Float D)
        → is_idle status ≡ true
        → after_apply rx status c ≡ c
    unfolding after_apply
    after_apply-idle applied c h = absurd (ground (arith, h))
    after_apply-idle hw_error c h = absurd (ground (arith, h))
    after_apply-idle ok_no_radio c h = refl
    after_apply-idle rejected_invalid c h = refl
    after_apply-idle rejected_malformed c h = refl
    after_apply-idle unknown c h = refl

    configure-IsKept :
        (jobs : Jobs) (c : Controller fl.Float D) (line : List ℕ) (scanned : Bool)
        → is_busy jobs ≡ true
        → IsKept scanned c (configure fl rf board calls rx reports jobs c line).1
    unfolding configure
    configure-IsKept jobs c line scanned busy =
        let r = parse_and_apply_config fl rf board calls line c.radio in
        elim (Bool-cases (not c.has_driver || not (is_ready c.rearm.health))) [
          | inl gone ↦ rw gone (IsKept-refl scanned c)
          | inr there ↦ elim (Bool-cases (touches_radio line)) [
            | inl touches ↦ rw (there, touches, busy) (IsKept-refl scanned c)
            | inr spared ↦
                let (idle, rf_same) = touches_radio-Idle fl rf board calls line c.radio spared in
                rw (there, spared, after_apply-idle r.0 (record c { radio = r.1 }) idle)
                  (record {
                    driver = inl rf_same.driver;
                    mode_flag = rf_same.mode_flag;
                    effective = rf_same.effective;
                    replay = rf_same.replay;
                    queue = λ q. q;
                  })
          ]
        ]

    -- While jobs wait or one is executed, no line of a client changes what they are sent with: not the
    -- mode, not the configuration in effect, not what would be replayed, and nothing in the driver but
    -- for the scan that GET CHANNEL makes; nor does it turn the queue off.
    pub apply_line-IsKept :
        (jobs : Jobs) (c : Controller fl.Float D) (line : List ℕ)
        → is_busy jobs ≡ true
        → IsKept
            (is_get_channel (uppercase (take 255 line)))
            c
            (apply_line fl rf board calls rx reports jobs c line).1
    unfolding apply_line
    apply_line-IsKept jobs c line busy =
        let upper = uppercase (take 255 line) in
        let scan = is_get_channel upper in
        parsed_or-elim (λ r. IsKept scan c r.1) (first_of (tests reports jobs c upper))
          (configure fl rf board calls rx reports jobs c line)
          (first_of-elim (λ r. IsKept scan c r.1) (tests reports jobs c upper)
            (All-append (Kept scan c) (report_lines reports c upper) (runtime_setters jobs c upper)
              (report_lines-Kept jobs c upper reports) (runtime_setters-Kept jobs c upper busy)))
          (λ _. configure-IsKept jobs c line scan busy)
