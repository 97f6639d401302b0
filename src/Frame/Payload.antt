-- ===== src/Frame/Payload.antt =====
-- Whole frames: what stands behind the header.
use lo_ra_ham_daemon.Base.{
  List, [], arith, drop, drop-append_left, drop-drop, false, get_or, length, length-append,
  length-drop, none, refl, some, suc, take, take-append_left, true, write, ℕ, ◌%◌, ◌*◌, ◌++◌, ◌+◌,
  ◌/◌, ◌<◌, ◌↔◌, ◌∷◌, ◌≡◌, ◌≤◌, ◌⊎◌,
}
use lo_ra_ham_daemon.Base.Int.{ℤ, to_u16, to_u16-lt, from_u16, from_u16-to_u16, IsInt16}
use lo_ra_ham_daemon.Frame.{
  encode_frame, decode_header, encode_rx_packet, encode_tx_result, type_payload_len_valid,
}

-- A block written right behind three bytes.
write_after_header :
    (a b c : ℕ) (rest p : List ℕ)
    → write (a ∷ b ∷ c ∷ rest) 3 p ≡ a ∷ b ∷ c ∷ (p ++ drop (length p) rest)
write_after_header a b c rest p =
    let e : 3 + length p ≡ suc (suc (suc (length p))) = omega arith in rw e refl

-- The bytes of a frame: type, length low and high, payload, and the buffer's untouched end.
pub encode_frame_lem :
    (frame : List ℕ) (t : ℕ) (p : List ℕ)
    → 3 + length p ≤ length frame
    → type_payload_len_valid t (length p) ≡ true
    → encode_frame frame t p
      ≡ some (t ∷ length p % 256 ∷ length p / 256 % 256 ∷ (p ++ drop (3 + length p) frame))
unfolding encode_frame
encode_frame_lem frame t [] room valid = ground arith
encode_frame_lem frame t (x ∷ p) room valid = ground (
  arith,
  write_after_header t (length (x ∷ p) % 256) (length (x ∷ p) / 256 % 256) (drop 3 frame) (x ∷ p),
  drop-drop 3 (length (x ∷ p)) (3 + length (x ∷ p)) frame refl,
)

pub encode_frame-inv :
    (frame : List ℕ) (t : ℕ) (p : List ℕ) {out : List ℕ}
    → encode_frame frame t p ≡ some out
    → (3 + length p ≤ length frame) × (type_payload_len_valid t (length p) ≡ true)
unfolding encode_frame
encode_frame-inv frame t p e = ground arith

-- A frame with a payload of less than 2^16 bytes that `encode_frame` has written into any buffer
-- is read back: `decode_header` gives its type and payload length, the payload stands behind the
-- header, and the buffer keeps its length and whatever stood behind the frame.
pub decode-encode_frame :
    (frame : List ℕ) (t : ℕ) (p : List ℕ) {out : List ℕ}
    → length p < 65536
    → encode_frame frame t p ≡ some out
    → (decode_header out ≡ some (t, length p))
      × (take (length p) (drop 3 out) ≡ p)
      × (drop (3 + length p) out ≡ drop (3 + length p) frame)
      × (length out ≡ length frame)
unfolding decode_header
decode-encode_frame frame t p {out} h e =
    let n = length p in
    let rest = drop (3 + n) frame in
    let (room, valid) = encode_frame-inv frame t p e in
    let shape : out ≡ t ∷ n % 256 ∷ n / 256 % 256 ∷ (p ++ rest) =
      cc (encode_frame_lem frame t p room valid) in
    let joined : n % 256 + 256 * (n / 256 % 256) ≡ n = omega arith in
    (
      rw shape (rw joined (ground arith)),
      rw shape (take-append_left p rest n refl),
      rw (← drop-drop 3 n (3 + n) out refl, shape) (drop-append_left p rest n refl),
      rw shape (omega (arith, length-append p rest, length-drop (3 + n) frame)),
    )

-- `encode_frame` refuses exactly the buffers that are too short for the frame and the payload
-- lengths that the type does not allow.
pub encode_frame-none :
    (frame : List ℕ) (t : ℕ) (p : List ℕ)
    → (encode_frame frame t p ≡ none)
      ↔ ((length frame < 3 + length p) ⊎ (type_payload_len_valid t (length p) ≡ false))
unfolding encode_frame
encode_frame-none frame t p = ground arith

write_after_meta :
    (a b c d e f g : ℕ) (rest p : List ℕ)
    → write (a ∷ b ∷ c ∷ d ∷ e ∷ f ∷ g ∷ rest) 7 p
      ≡ a ∷ b ∷ c ∷ d ∷ e ∷ f ∷ g ∷ (p ++ drop (length p) rest)
write_after_meta a b c d e f g rest p =
    let q : 7 + length p ≡ suc (suc (suc (suc (suc (suc (suc (length p))))))) = omega arith in
    rw q refl

-- An RX packet: seven bytes of header and signal values, then the payload, then the buffer's rest.
pub encode_rx_packet_lem :
    (frame : List ℕ) (rssi snr : ℤ) (p : List ℕ)
    → length p ≤ 255
    → 7 + length p ≤ length frame
    → encode_rx_packet frame rssi snr p
      ≡ some (
          1
          ∷ (4 + length p) % 256
          ∷ (4 + length p) / 256 % 256
          ∷ to_u16 rssi % 256
          ∷ to_u16 rssi / 256 % 256
          ∷ to_u16 snr % 256
          ∷ to_u16 snr / 256 % 256
          ∷ (p ++ drop (7 + length p) frame))
unfolding encode_rx_packet type_payload_len_valid
encode_rx_packet_lem frame rssi snr [] h room = ground (arith, drop-drop 3 4 7 frame refl)
encode_rx_packet_lem frame rssi snr (x ∷ p) h room =
    let n = length (x ∷ p) in
    let small : (4 + n) % 65536 ≡ 4 + n = omega arith in
    rw small (
      ground (
        arith,
        drop-drop 3 4 7 frame refl,
        drop-drop 7 n (7 + n) frame refl,
        write_after_meta 1 ((4 + n) % 256) ((4 + n) / 256 % 256) (to_u16 rssi % 256)
            (to_u16 rssi / 256 % 256) (to_u16 snr % 256) (to_u16 snr / 256 % 256) (drop 7 frame)
            (x ∷ p),
      ))

pub encode_rx_packet-inv :
    (frame : List ℕ) (rssi snr : ℤ) (p : List ℕ) {out : List ℕ}
    → encode_rx_packet frame rssi snr p ≡ some out
    → (length p ≤ 255) × (7 + length p ≤ length frame)
unfolding encode_rx_packet
encode_rx_packet-inv frame rssi snr p e = ground arith

-- The 16-bit word that stands in two bytes, low byte first.
abbrev pub word_at : List ℕ → ℕ → ℕ
word_at b i = get_or b i 0 + 256 * get_or b (suc i) 0

-- A client that reads back an RX packet that was encoded with 16-bit signal values finds its type
-- and length, the signal values as they were given (signed), and the whole RF payload behind them;
-- the buffer keeps its length.
pub encode_rx_packet_readback :
    (frame : List ℕ) (rssi snr : ℤ) (p : List ℕ) {out : List ℕ}
    → IsInt16 rssi
    → IsInt16 snr
    → encode_rx_packet frame rssi snr p ≡ some out
    → (decode_header out ≡ some (1, 4 + length p))
      × (from_u16 (word_at out 3) ≡ rssi)
      × (from_u16 (word_at out 5) ≡ snr)
      × (take (length p) (drop 7 out) ≡ p)
      × (length out ≡ length frame)
unfolding decode_header type_payload_len_valid
encode_rx_packet_readback frame rssi snr p {out} hr hs e =
    let n = 4 + length p in
    let rest = drop (7 + length p) frame in
    let (small, room) = encode_rx_packet-inv frame rssi snr p e in
    let shape : out
        ≡ 1
          ∷ n % 256
          ∷ n / 256 % 256
          ∷ to_u16 rssi % 256
          ∷ to_u16 rssi / 256 % 256
          ∷ to_u16 snr % 256
          ∷ to_u16 snr / 256 % 256
          ∷ (p ++ rest) =
      cc (encode_rx_packet_lem frame rssi snr p small room) in
    let joined : n % 256 + 256 * (n / 256 % 256) ≡ n = omega arith in
    let joined_rssi : to_u16 rssi % 256 + 256 * (to_u16 rssi / 256 % 256) ≡ to_u16 rssi =
      omega (arith, to_u16-lt rssi) in
    let joined_snr : to_u16 snr % 256 + 256 * (to_u16 snr / 256 % 256) ≡ to_u16 snr =
      omega (arith, to_u16-lt snr) in
    (
      rw shape (rw joined (ground arith)),
      rw shape (rw joined_rssi (from_u16-to_u16 rssi hr)),
      rw shape (rw joined_snr (from_u16-to_u16 snr hs)),
      rw shape (take-append_left p rest (length p) refl),
      rw shape (omega (arith, length-append p rest, length-drop (7 + length p) frame)),
    )

-- `encode_tx_result` succeeds exactly for a status up to 6 and a buffer of 7 bytes, and then the
-- buffer starts with the seven bytes of the result: type 4, length 4, status, flags and the
-- sequence number, low byte first. The rest of the buffer stays.
pub encode_tx_result_lem :
    (frame : List ℕ) (status flags seq : ℕ) (out : List ℕ)
    → (encode_tx_result frame status flags seq ≡ some out) ↔ (
        (status ≤ 6)
        × (7 ≤ length frame)
        × (out ≡ 4 ∷ 4 ∷ 0 ∷ status ∷ flags ∷ seq % 256 ∷ seq / 256 % 256 ∷ drop 7 frame))
unfolding encode_tx_result type_payload_len_valid
encode_tx_result_lem frame status flags seq out = (
  (λ e. ground (arith, drop-drop 3 4 7 frame refl)),
  (λ h. ground (arith, drop-drop 3 4 7 frame refl)),
)
