-- ===== src/FramedTx/Tests.antt =====
-- The parser at concrete streams, with a handler that records what it is given.
use lo_ra_ham_daemon.Base.{List, [], arith, if◌then◌else◌, length, refl, some, ℕ, ◌==◌, ◌∷◌, ◌≡◌}
use lo_ra_ham_daemon.Base.Int.{pos}
use lo_ra_ham_daemon.Frame.{type_known, rf_payload_len_valid}
use lo_ra_ham_daemon.FramedTx.{
  TxError, unknown_frame_type, init, Handlers, report, deliver, header_ready, complete_frame,
  feed_byte, feed_state,
}
use lo_ra_ham_daemon.FramedTx.Spec.{Message, bytes, wire, effects}
use lo_ra_ham_daemon.FramedTx.Safety.{IsSound, init-IsSound, feed_state-IsSound}
use lo_ra_ham_daemon.FramedTx.Resync.{feed_state-wire}

abbrev Log : Type 0
Log = List (List ℕ) × List TxError

-- Refuses the empty packet with code 5.
abbrev recording : Handlers Log
recording = record {
  on_tx = some (λ s p. ((p ∷ s.0, s.1), if length p == 0 then pos 5 else pos 0));
  on_error = some (λ s e. (s.0, e ∷ s.1));
}

abbrev no_events : Log
no_events = ([], [])

-- An unknown frame whose payload looks like a TX header, then a packet.
abbrev frames : List Message
frames =
    record { kind = 9; body = 2 ∷ 1 ∷ 0 ∷ 7 ∷ [] } ∷ record { kind = 2; body = 65 ∷ 66 ∷ [] } ∷ []

stream_log :
    feed_state recording (init, no_events) (wire frames)
    ≡ (init, ((65 ∷ 66 ∷ []) ∷ [], unknown_frame_type ∷ []))
unfolding wire bytes feed_state feed_byte header_ready complete_frame report deliver type_known
    rf_payload_len_valid
stream_log = refl

feed_state-wire_example :
    feed_state recording (init, no_events) (wire frames)
    ≡ (init, effects recording no_events frames)
feed_state-wire_example = feed_state-wire recording frames no_events (omega arith)

feed_state-IsSound_example : IsSound (feed_state recording (init, no_events) (2 ∷ 3 ∷ 0 ∷ 7 ∷ [])).0
feed_state-IsSound_example =
    feed_state-IsSound recording (2 ∷ 3 ∷ 0 ∷ 7 ∷ []) init no_events (omega arith) init-IsSound
