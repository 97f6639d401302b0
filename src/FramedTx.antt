-- ===== src/FramedTx.antt =====
-- loraham_daemon/framed_data_tx.cpp: the parser of one client's framed DATA byte stream.
-- `header` and `payload` hold the bytes stored so far, so `header_len` and `payload_len` are their
-- lengths. The two callbacks act on a state `S` of their own; either may be NULL (none).
-- `framed_data_tx_complete_frame` and the header step always return 0, so a feed never fails.
mod Steps
pub mod Spec
pub mod Safety
pub mod Resync
mod Tests
use lo_ra_ham_daemon.Base.{
  List, Option, [], get_or, if◌then◌else◌, length, ltb, none, not, some, ℕ, ◌*◌, ◌++◌, ◌+◌, ◌-◌,
  ◌==◌, ◌∷◌,
}
use lo_ra_ham_daemon.Base.Int.{ℤ, pos, is_zero}
use lo_ra_ham_daemon.Frame.{
  type_known, rf_payload_len_valid, header_len, max_rf_payload, type_tx_packet,
}

-- The messages that the parser reports.
pub data TxError : Type 0 where
  unknown_frame_type unsupported_too_large payload_too_large unsupported_frame tx_failed : TxError

pub record TxState : Type 0 where
  pub header : List ℕ
  pub payload : List ℕ
  pub expected_len : ℕ
  pub frame_type : ℕ
  pub skip_len : ℕ

-- memset(state, 0, sizeof(*state))
abbrev pub init : TxState
init = record { header = []; payload = []; expected_len = 0; frame_type = 0; skip_len = 0 }

-- The handler of a TX packet returns 0 or an error code, and may be absent.
pub record Handlers (S : Type 0) : Type 0 where
  pub on_tx : Option (S → List ℕ → S × ℤ)
  pub on_error : Option (S → TxError → S)

module _ {S : Type 0} (h : Handlers S) where
  unfoldable pub report : S → TxError → S
  report s e = elim h.on_error [ none ↦ s | some f ↦ f s e ]

  -- Calls the packet handler; no handler counts as success.
  unfoldable pub deliver : S → List ℕ → S × ℤ
  deliver s p = elim h.on_tx [ none ↦ (s, pos 0) | some f ↦ f s p ]

  reject : TxError → ℕ → S → TxState × S
  reject e payload_len s = (record init { skip_len = payload_len }, report s e)

  unfoldable pub header_ready : TxState → S → TxState × S
  unfolding reject
  header_ready st s =
      let frame_type = get_or st.header 0 0 in
      let payload_len = get_or st.header 1 0 + 256 * get_or st.header 2 0 in
      let accepted : TxState × S =
        (record st { frame_type = frame_type; expected_len = payload_len }, s) in
      if not (type_known frame_type)
      then reject unknown_frame_type payload_len s
      else if not (frame_type == type_tx_packet)
      then (if ltb max_rf_payload payload_len
          then reject unsupported_too_large payload_len s
          else accepted)
      else if not (rf_payload_len_valid payload_len)
      then reject payload_too_large payload_len s
      else accepted

  -- "TX failed" on top of a packet that its handler refused
  after_tx : S × ℤ → S
  after_tx (s, result) = if is_zero result then s else report s tx_failed

  unfoldable pub complete_frame : TxState → S → TxState × S
  unfolding after_tx
  complete_frame st s =
      if st.frame_type == type_tx_packet
      then (init, after_tx (deliver s st.payload))
      else (init, report s unsupported_frame)

  -- What follows the third header byte.
  pub header_done : TxState × S → TxState × S
  header_done (st, s) =
      if length st.header == 0
      then (st, s)
      else if st.expected_len == 0
      then complete_frame st s
      else (st, s)

  -- One round of the loop in `framed_data_tx_feed_state`.
  unfoldable pub feed_byte : TxState × S → ℕ → TxState × S
  unfolding header_done
  feed_byte (st, s) b =
      let headed = record st { header = st.header ++ b ∷ [] } in
      let paid = record st { payload = st.payload ++ b ∷ [] } in
      if ltb 0 st.skip_len
      then (record st { skip_len = st.skip_len - 1 }, s)
      else if ltb (length st.header) header_len
      then (if length headed.header == header_len
          then header_done (header_ready headed s)
          else (headed, s))
      else if ltb (length st.payload) st.expected_len
      then (if length paid.payload == st.expected_len then complete_frame paid s else (paid, s))
      else (st, s)

  unfoldable pub feed_state : TxState × S → List ℕ → TxState × S
  feed_state c [] = c
  feed_state c (b ∷ bs) = feed_state (feed_byte c b) bs
