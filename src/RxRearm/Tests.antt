-- ===== src/RxRearm/Tests.antt =====
-- A radio that fails once, and three calls.
use lo_ra_ham_daemon.Base.{
  List, [], arith, false, length-replicate, refl, replicate, true, ℕ, ◌∷◌, ◌≡◌,
}
use lo_ra_ham_daemon.UsbWait.{failed}
use lo_ra_ham_daemon.RxRearm.{Call, note_result, retry}
use lo_ra_ham_daemon.RxRearm.Retries.{
  after, fresh, after-fresh, Event, called, noted, attempts, Spaced, attempts-Spaced,
}

after-fresh_example :
    let c = after (replicate 30 false) fresh in
    (c.rearm_pending ≡ true)
    × (c.consecutive_failures ≡ 30)
    × (c.failures ≡ 30)
    × (c.health ≡ failed)
after-fresh_example = after-fresh (replicate 30 false) (omega (arith, length-replicate 30 false))

abbrev at : ℕ → Call
at now = record {
  now_ms = now;
  tx_busy = false;
  driver = true;
  received = false;
  locked = true;
  tx_busy_then = false;
  answer = false;
}

abbrev events : List Event
events = called (at 2500) ∷ called (at 1900) ∷ called (at 1000) ∷ noted false ∷ []

times : (attempts events fresh).0 ≡ 2500 ∷ 1000 ∷ []
unfolding retry note_result
times = refl

attempts-Spaced_example : Spaced (attempts events fresh).0
attempts-Spaced_example = attempts-Spaced events fresh
