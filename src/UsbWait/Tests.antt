-- ===== src/UsbWait/Tests.antt =====
-- One outage.
use lo_ra_ham_daemon.Base.{[], arith, false, none, refl, true, ℕ, ◌∷◌, ◌≡◌, ◌≢◌}
use lo_ra_ham_daemon.UsbWait.{
  ready, up, Usb, pending, teardown, lost, init, gone, opened, is_ready, Pass, fatal, on_loss,
  tick_pending, tick_reinit, tick_reopen, tick_unplugged, tick,
}
use lo_ra_ham_daemon.UsbWait.Outage.{Inv, Run, IsPass, Run-Inv, recovers}
use lo_ra_ham_daemon.UsbWait.Grace.{loss, pass, run, grace}

abbrev at : ℕ → Pass
at now = record {
  left_bound = false;
  arrivals = 0;
  lefts = 0;
  now_ms = now;
  presence = gone;
  teardown_done = true;
  reopen_due = false;
  reopen_step = opened;
  reinit = is_ready none;
}

at-IsPass : (now : ℕ) → IsPass (at now)
at-IsPass now late e = absurd (ground arith)

abbrev classified : Usb
classified = record init {
  loss_flag = true;
  state = pending;
  deadline_ms = 600;
  loss_ms = 100;
  health = lost;
}

Run-Inv_example : Inv classified
unfolding tick tick_pending on_loss
Run-Inv_example = Run-Inv classified (
    Run.passes (on_loss 100 init) (at 200) (Run.loses init 100 Run.starts (λ e. cc) (omega arith))
      (at-IsPass 200) refl)

-- From the deadline on three passes bring the radio back.
recovered :
    (run (pass (at 600) ∷ pass (at 601) ∷ pass (at 602) ∷ []) classified).0
    ≡ record init { deadline_ms = 600 }
unfolding tick tick_pending tick_reinit tick_reopen tick_unplugged on_loss
recovered = refl

grace_example :
    let (u', done) = run (loss 150 ∷ pass (at 200) ∷ []) (on_loss 100 init) in
    (done ≡ [])
    × (u'.health ≡ lost)
    × (gone ≡ gone → ((tick (at 600) u').0.state ≡ teardown) × ((tick (at 600) u').1 ≡ []))
    × (gone ≢ gone → (tick (at 600) u').1 ≡ fatal ∷ [])
grace_example =
    grace init 100 (loss 150 ∷ pass (at 200) ∷ []) (at 600) Run.starts refl refl (omega arith)
      (tt, ((refl, omega arith), tt)) refl (omega arith)

abbrev going : Usb
going = record classified { state = teardown }

going_reached : Run going
unfolding tick tick_pending on_loss
going_reached =
    Run.passes classified (at 600)
      (Run.passes (on_loss 100 init) (at 200)
        (Run.loses init 100 Run.starts (λ e. cc) (omega arith)) (at-IsPass 200) refl)
      (at-IsPass 600) refl

recovers_example :
    let u' = (tick (at 602) (tick (at 601) going).0).0 in
    (u'.health ≡ ready) × (u'.state ≡ up) × (u'.loss_flag ≡ false)
recovers_example = recovers going (at 601) (at 602) going_reached refl refl refl refl
