-- ===== src/Frame/Tests.antt =====
-- Frames at concrete inputs.
use lo_ra_ham_daemon.Base.{List, [], arith, none, refl, replicate, some, ℕ, ◌∷◌, ◌≡◌}
use lo_ra_ham_daemon.Base.Int.{pos, negsuc, from_u16}
use lo_ra_ham_daemon.Frame.{
  encode_header, decode_header, type_payload_len_valid, encode_frame, encode_rx_packet,
}
use lo_ra_ham_daemon.Frame.Payload.{decode-encode_frame, encode_rx_packet_readback, word_at}

abbrev buffer : List ℕ
buffer = replicate 9 170

encode_frame_bytes :
    encode_frame buffer 2 (72 ∷ 105 ∷ []) ≡ some (2 ∷ 2 ∷ 0 ∷ 72 ∷ 105 ∷ 170 ∷ 170 ∷ 170 ∷ 170 ∷ [])
unfolding encode_frame type_payload_len_valid
encode_frame_bytes = refl

-- An RX length byte without room for the signal values, and a payload of 256 bytes, are refused.
refused_lengths :
    (encode_header buffer 1 3 ≡ none)
    × (encode_header buffer 2 256 ≡ none)
    × (encode_header buffer 9 0 ≡ none)
unfolding encode_header type_payload_len_valid
refused_lengths = (refl, refl, refl)

decode-encode_frame_example :
    (decode_header (2 ∷ 2 ∷ 0 ∷ 72 ∷ 105 ∷ 170 ∷ 170 ∷ 170 ∷ 170 ∷ []) ≡ some (2, 2))
decode-encode_frame_example =
    (decode-encode_frame buffer 2 (72 ∷ 105 ∷ []) (omega arith) encode_frame_bytes).0

rx_bytes :
    encode_rx_packet buffer (negsuc 9749) (pos 750) (7 ∷ 8 ∷ [])
    ≡ some (1 ∷ 6 ∷ 0 ∷ 234 ∷ 217 ∷ 238 ∷ 2 ∷ 7 ∷ 8 ∷ [])
unfolding encode_rx_packet type_payload_len_valid
rx_bytes = refl

encode_rx_packet_readback_example :
    from_u16 (word_at (1 ∷ 6 ∷ 0 ∷ 234 ∷ 217 ∷ 238 ∷ 2 ∷ 7 ∷ 8 ∷ []) 3) ≡ negsuc 9749
encode_rx_packet_readback_example =
    (encode_rx_packet_readback buffer (negsuc 9749) (pos 750) (7 ∷ 8 ∷ []) (omega arith)
      (omega arith) rx_bytes).1
