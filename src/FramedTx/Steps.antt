-- ===== src/FramedTx/Steps.antt =====
-- The branches of one round of the feed loop, each with its result.
use lo_ra_ham_daemon.Base.{
  ==_iff, [], arith, false, length, length-append, le→ltb, ltb, lt→ltb, true, ℕ, ◌++◌, ◌+◌, ◌-◌,
  ◌<◌, ◌==◌, ◌∷◌, ◌≡◌,
}
use lo_ra_ham_daemon.FramedTx.{
  TxState, Handlers, header_ready, header_done, complete_frame, feed_byte,
}

module _ {S : Type 0} (h : Handlers S) (st : TxState) (s : S) (b : ℕ) where
  abbrev pub headed : TxState
  headed = record st { header = st.header ++ b ∷ [] }

  abbrev pub paid : TxState
  paid = record st { payload = st.payload ++ b ∷ [] }

  pub feed_byte_skip :
      0 < st.skip_len → feed_byte h (st, s) b ≡ (record st { skip_len = st.skip_len - 1 }, s)
  unfolding feed_byte
  feed_byte_skip p = ground arith

  module _ (idle : st.skip_len ≡ 0) where
    pub feed_byte_early : length st.header < 2 → feed_byte h (st, s) b ≡ (headed, s)
    unfolding feed_byte
    feed_byte_early p = ground (arith, length-append st.header (b ∷ []))

    pub feed_byte_third :
        length st.header ≡ 2 → feed_byte h (st, s) b ≡ header_done h (header_ready h headed s)
    unfolding feed_byte
    feed_byte_third p =
        let n : length (st.header ++ b ∷ []) ≡ 3 =
          omega (arith, length-append st.header (b ∷ [])) in
        let skip : ltb 0 st.skip_len ≡ false = le→ltb _ _ (omega arith) in
        let short : ltb (length st.header) 3 ≡ true = lt→ltb _ _ (omega arith) in
        rw (skip, short, n)

    pub feed_byte_more :
        length st.header ≡ 3
        → length st.payload + 1 < st.expected_len
        → feed_byte h (st, s) b ≡ (paid, s)
    unfolding feed_byte
    feed_byte_more p q = ground (arith, length-append st.payload (b ∷ []))

    pub feed_byte_last :
        length st.header ≡ 3
        → length st.payload + 1 ≡ st.expected_len
        → feed_byte h (st, s) b ≡ complete_frame h paid s
    unfolding feed_byte
    feed_byte_last p q =
        let n : length (st.payload ++ b ∷ []) ≡ st.expected_len =
          omega (arith, length-append st.payload (b ∷ [])) in
        let skip : ltb 0 st.skip_len ≡ false = le→ltb _ _ (omega arith) in
        let whole : ltb (length st.header) 3 ≡ false = le→ltb _ _ (omega arith) in
        let more : ltb (length st.payload) st.expected_len ≡ true = lt→ltb _ _ (omega arith) in
        let same : (length (st.payload ++ b ∷ []) == st.expected_len) ≡ true = (==_iff _ _).1 n in
        rw (skip, whole, more, same)
