-- ===== src/ConfigDispatch/Truth.antt =====
-- What the answer to a configuring line tells.
use lo_ra_ham_daemon.Base.{
  Bool, Bool-cases, List, [], ap, arith, inl, inr, not, refl, sym, true, ℕ, ◌&&◌, ◌||◌, ◌∷◌, ◌≡◌,
}
use lo_ra_ham_daemon.ConfigValue.{Floats}
use lo_ra_ham_daemon.ConfigParser.{touches_radio}
use lo_ra_ham_daemon.ConfigValidate.{Board, one_of}
use lo_ra_ham_daemon.ConfigApply.{
  Driver, RfDefaults, Radio, Status, applied, hw_error, ok_no_radio, rejected_invalid,
  rejected_malformed, unknown, parse_and_apply_config,
}
use lo_ra_ham_daemon.ConfigApply.Rejected.{is_rejection, IsUntouched, rejected-IsUntouched}
use lo_ra_ham_daemon.ConfigApply.Airtime.{is_success, keeps_limit, airtime_kept}
use lo_ra_ham_daemon.RxRearm.{is_ready, note_result}
use lo_ra_ham_daemon.UsbWait.{failed}
use lo_ra_ham_daemon.ConfigDispatch.Answer
use lo_ra_ham_daemon.ConfigDispatch.{
  Controller, Receiver, Reports, Jobs, is_busy, answer_of, after_apply, configure,
}

abbrev pub refusals : List (List ℕ)
refusals = Answer.not_ready ∷ Answer.busy ∷ Answer.invalid ∷ Answer.malformed ∷ Answer.unknown ∷ []

module _ (fl : Floats) (rf : RfDefaults fl.Float) {D : Type 0} (board : Board fl) (calls : Driver D)
    (rx : Receiver D) (reports : Reports fl.Float D) where
  -- What the driver answers to being set to receive, behind the line's settings.
  abbrev pub started : List ℕ → Controller fl.Float D → Bool × D
  started line c = rx.start_receive (
      rx.set_packet_received_action
        (parse_and_apply_config fl rf board calls line c.radio).1.driver)

  -- The health behind a line that was carried out: that of before if the line needed no radio;
  -- otherwise the driver is set to receive as the last thing, and what it answers is noted.
  pub data IsNoted (line : List ℕ) (c c' : Controller fl.Float D) : Type 0 where
    without_radio :
        (parse_and_apply_config fl rf board calls line c.radio).0 ≡ ok_no_radio
        → c'.rearm ≡ c.rearm
        → IsNoted line c c'
    with_radio :
        (parse_and_apply_config fl rf board calls line c.radio).0 ≡ applied
        → c'.rearm ≡ note_result (started line c).0 c.rearm
        → c'.radio.driver ≡ (started line c).1
        → IsNoted line c c'

  -- OK: the radio's configuration keeps to the airtime limit, and its health is what `IsNoted` says. A
  -- refusal: nothing was touched. ERR HARDWARE: the radio has failed, and every further configuring
  -- line is refused.
  pub data Answered (line : List ℕ) (c : Controller fl.Float D) (r : List ℕ × Controller fl.Float D)
      : Type 0 where
    accepted :
        r.0 ≡ Answer.ok
        → keeps_limit fl rf board calls r.1.radio ≡ true
        → IsNoted line c r.1
        → Answered line c r
    refused :
        one_of r.0 refusals ≡ true
        → IsUntouched fl rf board calls c.radio r.1.radio
        → r.1.rearm ≡ c.rearm
        → Answered line c r
    broken :
        r.0 ≡ Answer.hardware
        → r.1.rearm.health ≡ failed
        → ((jobs : Jobs) (next : List ℕ)
            → configure fl rf board calls rx reports jobs r.1 next ≡ (Answer.not_ready, r.1))
        → Answered line c r

  failed_gate :
      (jobs : Jobs) (c : Controller fl.Float D) (line : List ℕ)
      → c.rearm.health ≡ failed
      → configure fl rf board calls rx reports jobs c line ≡ (Answer.not_ready, c)
  unfolding configure
  failed_gate jobs c line h =
      let gone : not c.has_driver || not (is_ready c.rearm.health) ≡ true = ground (arith, h) in
      rw gone refl

  finish-Answered :
      (line : List ℕ) (c : Controller fl.Float D) (status : Status) (st : Radio fl.Float D)
      → parse_and_apply_config fl rf board calls line c.radio ≡ (status, st)
      → (is_success status ≡ true → keeps_limit fl rf board calls st ≡ true)
      → (is_rejection status ≡ true → IsUntouched fl rf board calls c.radio st)
      → Answered line c (answer_of status, after_apply rx status (record c { radio = st }))
  unfolding after_apply
  finish-Answered line c applied st e k u =
      let answer : rx.start_receive (rx.set_packet_received_action st.driver) ≡ started line c =
        ap (λ r. rx.start_receive (rx.set_packet_received_action r.1.driver)) (sym e) in
      Answered.accepted refl (k refl) (
        IsNoted.with_radio (ap (λ r. r.0) e) (ap (λ a. note_result a.0 c.rearm) answer)
          (ap (λ a. a.1) answer))
  finish-Answered line c ok_no_radio st e k u =
      Answered.accepted refl (k refl) (IsNoted.without_radio (ap (λ r. r.0) e) refl)
  finish-Answered line c hw_error st e k u = Answered.broken refl refl (λ jobs next.
      failed_gate jobs (record c { radio = st; rearm = record (c.rearm) { health = failed } }) next
        refl)
  finish-Answered line c rejected_invalid st e k u = Answered.refused refl (u refl) refl
  finish-Answered line c rejected_malformed st e k u = Answered.refused refl (u refl) refl
  finish-Answered line c unknown st e k u = Answered.refused refl (u refl) refl

  untouched : (c : Controller fl.Float D) → IsUntouched fl rf board calls c.radio c.radio
  untouched c = record {
    driver = refl;
    mode_flag = refl;
    getrssi = refl;
    effective = refl;
    replay = refl;
  }

  -- A line that configures the radio is answered truthfully: with OK only where the configuration in
  -- effect then keeps to the airtime limit and the health is what it was, if no radio was needed, or
  -- what noting the driver's answer to being set to receive makes of it; with ERR RADIO_NOT_READY, BUSY, INVALID, MALFORMED
  -- or UNKNOWN only where nothing of the radio was touched; with ERR HARDWARE only where the radio
  -- is then failed, and from then on every such line is answered ERR RADIO_NOT_READY and changes
  -- nothing.
  pub configure-Answered :
      (jobs : Jobs) (c : Controller fl.Float D) (line : List ℕ)
      → Answered line c (configure fl rf board calls rx reports jobs c line)
  unfolding configure
  configure-Answered jobs c line =
      let r = parse_and_apply_config fl rf board calls line c.radio in
      elim (Bool-cases (not c.has_driver || not (is_ready c.rearm.health))) [
        | inl gone ↦ rw gone (Answered.refused refl (untouched c) refl)
        | inr there ↦ elim (Bool-cases (touches_radio line && is_busy jobs)) [
          | inl busy ↦ rw (there, busy) (Answered.refused refl (untouched c) refl)
          | inr idle ↦
              rw (there, idle)
                (finish-Answered line c r.0 r.1 refl (airtime_kept fl rf board calls line c.radio)
                  (rejected-IsUntouched fl rf board calls line c.radio))
        ]
      ]
