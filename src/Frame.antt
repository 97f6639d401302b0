-- ===== src/Frame.antt =====
-- loraham_daemon/framed_data.cpp and framed_data.h: the wire format of the framed DATA socket.
-- A frame is its type, the payload length (low byte first) and the payload.
-- A caller's buffer is the list of its bytes, `frame_len` is that list's length, and the result
-- is the buffer written, or none where the code returns -1 (it has written nothing of use then).
-- Buffers and payloads are never NULL here; `low | high << 8` of two bytes is their sum.
pub mod Header
pub mod Payload
mod Tests
use lo_ra_ham_daemon.Base.{
  Bool, List, Option, [], false, get_or, if◌then◌else◌, leb, length, ltb, none, not, some, true,
  write, ℕ, ◌%◌, ◌*◌, ◌+◌, ◌-◌, ◌/◌, ◌==◌, ◌||◌, ◌∷◌,
}
use lo_ra_ham_daemon.Base.Int.{ℤ, to_u16}

abbrev pub header_len : ℕ
header_len = 3

abbrev pub max_rf_payload : ℕ
max_rf_payload = 255

abbrev pub rx_meta_len : ℕ
rx_meta_len = 4

abbrev pub tx_result_payload_len : ℕ
tx_result_payload_len = 4

abbrev pub type_rx_packet : ℕ
type_rx_packet = 1

abbrev pub type_tx_packet : ℕ
type_tx_packet = 2

abbrev pub type_error : ℕ
type_error = 3

abbrev pub type_tx_result : ℕ
type_tx_result = 4

abbrev pub status_invalid_band : ℕ
status_invalid_band = 6

abbrev pub flag_managed : ℕ
flag_managed = 1

abbrev pub flag_cad_timeout : ℕ
flag_cad_timeout = 4

unfoldable pub type_known : ℕ → Bool
type_known t = t == type_rx_packet || t == type_tx_packet || t == type_error || t == type_tx_result

unfoldable pub rf_payload_len_valid : ℕ → Bool
rf_payload_len_valid n = leb n max_rf_payload

unfoldable pub tx_result_status_valid : ℕ → Bool
tx_result_status_valid s = leb s status_invalid_band

unfoldable pub frame_size : ℕ → ℕ
frame_size n = header_len + n

unfoldable pub type_payload_len_valid : ℕ → ℕ → Bool
unfolding type_known rf_payload_len_valid
type_payload_len_valid t n =
    if not (type_known t)
    then false
    else if t == type_tx_packet
    then rf_payload_len_valid n
    else if t == type_rx_packet
    then (if ltb n rx_meta_len then false else rf_payload_len_valid (n - rx_meta_len))
    else if t == type_tx_result
    then n == tx_result_payload_len
    else true

-- One call with the header's buffer.
unfoldable pub encode_header : List ℕ → ℕ → ℕ → Option (List ℕ)
encode_header header t n =
    if ltb (length header) header_len
    then none
    else if not (type_payload_len_valid t n)
    then none
    else some (write header 0 (t ∷ n % 256 ∷ n / 256 % 256 ∷ []))

unfoldable pub decode_header : List ℕ → Option (ℕ × ℕ)
decode_header header =
    let t = get_or header 0 0 in
    let n = get_or header 1 0 + 256 * get_or header 2 0 in
    if ltb (length header) header_len
    then none
    else if not (type_payload_len_valid t n)
    then none
    else some (t, n)

infixl 5 ◌>>=◌
abbrev ◌>>=◌ : {A B : Type 0} → Option A → (A → Option B) → Option B
none >>= f = none
some a >>= f = f a

unfoldable pub encode_frame : List ℕ → ℕ → List ℕ → Option (List ℕ)
unfolding encode_header frame_size
encode_frame frame t payload =
    let n = length payload in
    if ltb (length frame) (frame_size n) then none else (do
      headed ← encode_header frame t n
      some (if ltb 0 n then write headed header_len payload else headed))

unfoldable pub encode_rx_packet : List ℕ → ℤ → ℤ → List ℕ → Option (List ℕ)
unfolding encode_header frame_size rf_payload_len_valid
encode_rx_packet frame rssi_cdbm snr_cdb rf_payload =
    let rf_len = length rf_payload in
    let payload_len = (rx_meta_len + rf_len) % 65536 in
    let rssi_raw = to_u16 rssi_cdbm in
    let snr_raw = to_u16 snr_cdb in
    if not (rf_payload_len_valid rf_len)
    then none
    else if ltb (length frame) (frame_size payload_len)
    then none
    else (do
      headed ← encode_header frame type_rx_packet payload_len
      let meta =
          write headed header_len
            (rssi_raw % 256 ∷ rssi_raw / 256 % 256 ∷ snr_raw % 256 ∷ snr_raw / 256 % 256 ∷ [])
      some (if ltb 0 rf_len then write meta (header_len + rx_meta_len) rf_payload else meta))

unfoldable pub encode_tx_result : List ℕ → ℕ → ℕ → ℕ → Option (List ℕ)
unfolding encode_header frame_size tx_result_status_valid
encode_tx_result frame status flags seq =
    if not (tx_result_status_valid status)
    then none
    else if ltb (length frame) (frame_size tx_result_payload_len)
    then none
    else (do
      headed ← encode_header frame type_tx_result tx_result_payload_len
      some (write headed header_len (status ∷ flags ∷ seq % 256 ∷ seq / 256 % 256 ∷ [])))
