-- ===== src/FramedTx/Safety.antt =====
-- The parser's state stays within its buffers, whatever bytes arrive.
use lo_ra_ham_daemon.Base.{
  All, All-append, All-get_or, List, [], ap, arith, get_or, length, length-append, nil_of_length, ℕ,
  ◌*◌, ◌+◌, ◌<◌, ◌∷◌, ◌≡◌, ◌≤◌, ◌⊎◌,
}
use lo_ra_ham_daemon.Frame.{rf_payload_len_valid}
use native.Mathlib.Decide.{dec_lt}
use lo_ra_ham_daemon.FramedTx.{
  TxState, init, Handlers, header_ready, header_done, complete_frame, feed_byte, feed_state,
}
use lo_ra_ham_daemon.FramedTx.Steps.{
  headed, paid, feed_byte_skip, feed_byte_early, feed_byte_third, feed_byte_more, feed_byte_last,
}

-- Between two bytes: at most two header bytes are stored, or a whole header of an accepted frame
-- whose payload is not complete; while a rejected payload is swallowed nothing is stored.
pub record IsSound (st : TxState) : Type 0 where
  pub header_fits : length st.header ≤ 3
  pub expected_fits : st.expected_len ≤ 255
  pub payload_partial : length st.payload ≤ st.expected_len
  pub waiting : length st.header ≡ 3 → length st.payload < st.expected_len
  pub fresh : length st.header < 3 → (st.expected_len ≡ 0) × (st.frame_type ≡ 0)
  pub skipping : 0 < st.skip_len → length st.header ≡ 0
  pub skip_fits : st.skip_len < 65536
  pub octets : All (λ b. b < 256) st.header

pub init-IsSound : IsSound init
init-IsSound = omega arith

module _ {S : Type 0} (h : Handlers S) where
  complete_frame-init : (st : TxState) (s : S) → (complete_frame h st s).0 ≡ init
  unfolding complete_frame
  complete_frame-init st s = ground arith

  -- After three header bytes: the frame is rejected, or its payload fits.
  header_ready-cases :
      (st : TxState) (s : S)
      → All (λ b. b < 256) st.header
      → let n = get_or st.header 1 0 + 256 * get_or st.header 2 0 in
        (n < 65536)
        × (((header_ready h st s).0 ≡ record init { skip_len = n })
            ⊎ (((header_ready h st s).0
                  ≡ record st { frame_type = get_or st.header 0 0; expected_len = n })
                × (n ≤ 255)))
  unfolding header_ready rf_payload_len_valid
  header_ready-cases st s o =
      let low = All-get_or (λ b. b < 256) st.header 1 0 o (omega arith) in
      let high = All-get_or (λ b. b < 256) st.header 2 0 o (omega arith) in
      (omega arith, ground arith)

  -- The third header byte: a rejected frame is skipped, an empty one is complete, any other waits.
  third-IsSound :
      (st : TxState) (s : S)
      → length st.header ≡ 3
      → st.payload ≡ []
      → st.skip_len ≡ 0
      → All (λ b. b < 256) st.header
      → IsSound (header_done h (header_ready h st s)).0
  unfolding header_done
  third-IsSound st s three empty idle o =
      let (_, c) = header_ready-cases st s o in
      ground (
        arith,
        c,
        header_ready-cases st s o,
        complete_frame-init (header_ready h st s).0 (header_ready h st s).1,
        ap length empty,
      )

  -- What the loop does at a byte, by the number of header bytes stored.
  module _ (st : TxState) (s : S) (b : ℕ) (small : b < 256) (v : IsSound st) where
    header_byte-IsSound : st.skip_len ≡ 0 → length st.header < 3 → IsSound (feed_byte h (st, s) b).0
    header_byte-IsSound idle short =
        let grown = length-append st.header (b ∷ []) in
        let octets = All-append (λ x. x < 256) st.header (b ∷ []) v.octets (small, tt) in
        elim (dec_lt (length st.header) 2) [
          | yes early ↦ rw (feed_byte_early h st s b idle early) (ground (arith, grown, octets))
          | no late ↦ rw (feed_byte_third h st s b idle (omega arith)) (
              third-IsSound (headed h st s b) s (omega (arith, grown))
                (nil_of_length st.payload (omega arith)) idle octets)
        ]

    payload_byte-IsSound :
        st.skip_len ≡ 0 → length st.header ≡ 3 → IsSound (feed_byte h (st, s) b).0
    payload_byte-IsSound idle three =
        let grown = length-append st.payload (b ∷ []) in
        elim (dec_lt (length st.payload + 1) st.expected_len) [
          | yes more ↦
              rw (feed_byte_more h st s b idle three more) (ground (arith, grown, v.octets))
          | no last ↦
              rw
                (
                  feed_byte_last h st s b idle three (omega arith),
                  complete_frame-init (paid h st s b) s,
                )
                init-IsSound
        ]

    -- No byte breaks the invariant.
    pub feed_byte-IsSound : IsSound (feed_byte h (st, s) b).0
    feed_byte-IsSound = elim (dec_lt 0 st.skip_len) [
      | yes skip ↦ rw (feed_byte_skip h st s b skip) (ground (arith, v.octets))
      | no idle ↦ elim (dec_lt (length st.header) 3) [
        | yes short ↦ header_byte-IsSound (omega arith) short
        | no whole ↦ payload_byte-IsSound (omega arith) (omega arith)
      ]
    ]

  -- Whatever bytes a client sends to a parser in a sound state, it stores at most 3 header bytes
  -- and 255 payload bytes, never more of a payload than was announced, and holds back nothing
  -- while it skips: every write into the state's buffers is in bounds.
  pub feed_state-IsSound :
      (bs : List ℕ) (st : TxState) (s : S)
      → All (λ b. b < 256) bs
      → IsSound st
      → IsSound (feed_state h (st, s) bs).0
  unfolding feed_state
  feed_state-IsSound [] st s o v = v
  feed_state-IsSound (b ∷ bs) st s o v =
      let (st', s') = feed_byte h (st, s) b in
      feed_state-IsSound bs st' s' o.1 (feed_byte-IsSound st s b o.0 v)
