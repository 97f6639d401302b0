-- ===== src/FramedTx/Spec.antt =====
-- What a client's stream of frames means, without a parser state: each frame acts on its own.
use lo_ra_ham_daemon.Base.{
  List, [], if◌then◌else◌, length, ltb, not, ℕ, ◌%◌, ◌++◌, ◌/◌, ◌<◌, ◌==◌, ◌∷◌,
}
use lo_ra_ham_daemon.Base.Int.{is_zero}
use lo_ra_ham_daemon.Frame.{type_known}
use lo_ra_ham_daemon.FramedTx.{
  unknown_frame_type, unsupported_too_large, payload_too_large, unsupported_frame, tx_failed,
  Handlers, report, deliver,
}

-- A frame as a client sends it: any type byte, and a payload as long as its header says.
pub record Message : Type 0 where
  pub kind : ℕ
  pub body : List ℕ

abbrev pub IsSendable : Message → Type 0
IsSendable m = length m.body < 65536

-- The bytes on the wire.
unfoldable pub bytes : Message → List ℕ
bytes m = m.kind ∷ length m.body % 256 ∷ length m.body / 256 ∷ m.body

unfoldable pub wire : List Message → List ℕ
wire [] = []
wire (m ∷ ms) = bytes m ++ wire ms

module _ {S : Type 0} (h : Handlers S) where
  -- One frame, one outcome: a packet handed over, or one error.
  unfoldable pub effect : S → Message → S
  effect s m =
      let n = length m.body in
      if not (type_known m.kind)
      then report h s unknown_frame_type
      else if m.kind == 2
      then (if ltb 255 n
          then report h s payload_too_large
          else (let r = deliver h s m.body in if is_zero r.1 then r.0 else report h r.0 tx_failed))
      else if ltb 255 n
      then report h s unsupported_too_large
      else report h s unsupported_frame

  unfoldable pub effects : S → List Message → S
  effects s [] = s
  effects s (m ∷ ms) = effects (effect s m) ms
