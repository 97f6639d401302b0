-- ===== src/FramedTx/Resync.antt =====
-- The parser implements the stream's meaning: frame by frame, however the bytes are cut into reads.
use lo_ra_ham_daemon.Base.{
  All, Bool, Bool-cases, List, [], ap, append_assoc, arith, false, inl, inr, leb, length,
  length-append, nil_of_length, refl, suc, true, ℕ, ◌%◌, ◌&&◌, ◌*◌, ◌++◌, ◌+◌, ◌-◌, ◌/◌, ◌∙◌, ◌∷◌,
  ◌≡◌, ◌≢◌,
}
use native.Mathlib.Decide.{ℕ_discrete}
use lo_ra_ham_daemon.Frame.{type_known, rf_payload_len_valid}
use lo_ra_ham_daemon.FramedTx.{
  TxState, init, Handlers, header_ready, header_done, complete_frame, feed_byte, feed_state,
}
use lo_ra_ham_daemon.FramedTx.Steps.{
  paid, feed_byte_skip, feed_byte_early, feed_byte_third, feed_byte_more, feed_byte_last,
}
use lo_ra_ham_daemon.FramedTx.Spec.{Message, IsSendable, bytes, wire, effect, effects}

module _ {S : Type 0} (h : Handlers S) where
  -- Two reads are one read of the bytes together.
  feed_state-append :
      (xs ys : List ℕ) (c : TxState × S)
      → feed_state h c (xs ++ ys) ≡ feed_state h (feed_state h c xs) ys
  unfolding feed_state
  feed_state-append [] ys c = refl
  feed_state-append (x ∷ xs) ys c = feed_state-append xs ys (feed_byte h c x)

  -- A rejected payload is swallowed whole, with no effect.
  feed_state-skip :
      (bs rest : List ℕ) (s : S)
      → feed_state h (record init { skip_len = length bs }, s) (bs ++ rest)
        ≡ feed_state h (init, s) rest
  unfolding feed_state
  feed_state-skip [] rest s = refl
  feed_state-skip (b ∷ bs) rest s =
      let st : TxState = record init { skip_len = length (b ∷ bs) } in
      let less : suc (length bs) - 1 ≡ length bs = omega arith in
      ap (λ c. feed_state h c (bs ++ rest))
        (feed_byte_skip h st s b (omega arith)
          ∙ ap (λ (k : ℕ). (record init { skip_len = k }, s)) less)
      ∙ feed_state-skip bs rest s

  -- A payload is collected up to its last byte, which completes the frame.
  feed_state-payload :
      (bs rest : List ℕ) (st : TxState) (s : S)
      → st.skip_len ≡ 0
      → length st.header ≡ 3
      → length st.payload + length bs ≡ st.expected_len
      → bs ≢ []
      → feed_state h (st, s) (bs ++ rest)
        ≡ feed_state h (complete_frame h (record st { payload = st.payload ++ bs }) s) rest
  unfolding feed_state
  feed_state-payload [] rest st s idle three sum ne = absurd (ne refl)
  feed_state-payload (b ∷ []) rest st s idle three sum ne =
      ap (λ c. feed_state h c rest) (feed_byte_last h st s b idle three (omega arith))
  feed_state-payload (b ∷ c ∷ bs) rest st s idle three sum ne =
      ap (λ x. feed_state h x ((c ∷ bs) ++ rest)) (feed_byte_more h st s b idle three (omega arith))
      ∙ feed_state-payload (c ∷ bs) rest (paid h st s b) s idle three
          (omega (arith, length-append st.payload (b ∷ []))) (λ e. cc)
      ∙ ap (λ p. feed_state h (complete_frame h (record st { payload = p }) s) rest)
          (append_assoc st.payload (b ∷ []) (c ∷ bs))

  -- A whole header from the idle state.
  abbrev with_header : Message → TxState
  with_header m = record init { header = m.kind ∷ length m.body % 256 ∷ length m.body / 256 ∷ [] }

  feed_state-header :
      (m : Message) (s : S) (rest : List ℕ)
      → feed_state h (init, s) (m.kind ∷ length m.body % 256 ∷ length m.body / 256 ∷ rest)
        ≡ feed_state h (header_done h (header_ready h (with_header m) s)) rest
  unfolding feed_state
  feed_state-header m s rest =
      let lo = length m.body % 256 in
      let hi = length m.body / 256 in
      let one : TxState = record init { header = m.kind ∷ [] } in
      let two : TxState = record init { header = m.kind ∷ lo ∷ [] } in
      ap (λ c. feed_state h (feed_byte h (feed_byte h c lo) hi) rest)
        (feed_byte_early h init s m.kind refl (omega arith))
      ∙ ap (λ c. feed_state h (feed_byte h c hi) rest)
          (feed_byte_early h one s lo refl (omega arith))
      ∙ ap (λ c. feed_state h c rest) (feed_byte_third h two s hi refl refl)

  -- The frames whose payload is collected.
  abbrev is_taken : Message → Bool
  is_taken m = type_known m.kind && leb (length m.body) 255

  abbrev open_frame : Message → TxState
  open_frame m = record (with_header m) { frame_type = m.kind; expected_len = length m.body }

  module _ (m : Message) (s : S) (ok : IsSendable m) where
    joined : length m.body % 256 + 256 * (length m.body / 256) ≡ length m.body
    joined = omega arith

    header_rejected :
        is_taken m ≡ false
        → header_done h (header_ready h (with_header m) s)
          ≡ (record init { skip_len = length m.body }, effect h s m)
    unfolding header_done header_ready effect rf_payload_len_valid
    header_rejected e = rw joined (ground arith)

    header_empty :
        is_taken m ≡ true
        → length m.body ≡ 0
        → header_done h (header_ready h (with_header m) s) ≡ (init, effect h s m)
    unfolding header_done header_ready effect rf_payload_len_valid complete_frame
    header_empty e n = rw joined (ground (arith, nil_of_length m.body n))

    header_taken :
        is_taken m ≡ true
        → length m.body ≢ 0
        → header_done h (header_ready h (with_header m) s) ≡ (open_frame m, s)
    unfolding header_done header_ready rf_payload_len_valid
    header_taken e n = rw joined (ground arith)

    taken_completes :
        is_taken m ≡ true
        → complete_frame h (record (open_frame m) { payload = m.body }) s ≡ (init, effect h s m)
    unfolding complete_frame effect
    taken_completes e = ground arith

  -- One frame from the idle state: its effect, and the parser is idle again.
  feed_state-message :
      (m : Message) (s : S) (rest : List ℕ)
      → IsSendable m
      → feed_state h (init, s) (bytes m ++ rest) ≡ feed_state h (init, effect h s m) rest
  unfolding bytes
  feed_state-message m s rest ok =
      let feed = λ (c : TxState × S). feed_state h c (m.body ++ rest) in
      feed_state-header m s (m.body ++ rest) ∙ elim (Bool-cases (is_taken m)) [
        | inr e ↦ ap feed (header_rejected m s ok e) ∙ feed_state-skip m.body rest (effect h s m)
        | inl e ↦ elim (ℕ_discrete (length m.body) 0) [
          | yes n ↦
              ap feed (header_empty m s ok e n)
              ∙ ap (λ b. feed_state h (init, effect h s m) (b ++ rest)) (nil_of_length m.body n)
          | no n ↦
              ap feed (header_taken m s ok e n)
              ∙ feed_state-payload m.body rest (open_frame m) s refl refl (omega arith)
                  (λ p. n (ap length p))
              ∙ ap (λ c. feed_state h c rest) (taken_completes m s ok e)
        ]
      ]

  -- Feeding the frames that a client sends (each of less than 2^16 bytes of payload), from a fresh
  -- state, hands every valid packet to the handler in order, reports one error for every other
  -- frame, and one for a packet that the handler refuses: the parser is back in step after each
  -- frame, whatever the payload of a rejected one looks like, and ends in its fresh state.
  pub feed_state-wire :
      (ms : List Message) (s : S)
      → All IsSendable ms
      → feed_state h (init, s) (wire ms) ≡ (init, effects h s ms)
  unfolding wire effects feed_state
  feed_state-wire [] s o = refl
  feed_state-wire (m ∷ ms) s o =
      feed_state-message m s (wire ms) o.0 ∙ feed_state-wire ms (effect h s m) o.1
