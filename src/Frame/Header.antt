-- ===== src/Frame/Header.antt =====
-- The header of a frame read back, and when it is refused.
use lo_ra_ham_daemon.Base.{
  List, arith, drop, false, length, none, some, true, ℕ, ◌%◌, ◌*◌, ◌+◌, ◌/◌, ◌<◌, ◌↔◌, ◌∷◌, ◌≡◌,
  ◌≤◌, ◌⊎◌,
}
use lo_ra_ham_daemon.Frame.{encode_header, decode_header, type_payload_len_valid}

-- The bytes that a successful call leaves in the buffer.
pub encode_header_lem :
    (header : List ℕ) (t n : ℕ)
    → 3 ≤ length header
    → type_payload_len_valid t n ≡ true
    → encode_header header t n ≡ some (t ∷ n % 256 ∷ n / 256 % 256 ∷ drop 3 header)
unfolding encode_header
encode_header_lem header t n h v = ground arith

pub encode_header-inv :
    (header : List ℕ) (t n : ℕ) {out : List ℕ}
    → encode_header header t n ≡ some out
    → (3 ≤ length header)
      × (type_payload_len_valid t n ≡ true)
      × (out ≡ t ∷ n % 256 ∷ n / 256 % 256 ∷ drop 3 header)
unfolding encode_header
encode_header-inv header t n e = ground arith

-- A header written by `encode_header` is read back by `decode_header`, whatever stood in the buffer.
pub decode-encode :
    (header : List ℕ) (t n : ℕ) {out : List ℕ}
    → n < 65536
    → encode_header header t n ≡ some out
    → decode_header out ≡ some (t, n)
unfolding decode_header
decode-encode header t n h e =
    let (room, valid, shape) = encode_header-inv header t n e in
    let joined : n % 256 + 256 * (n / 256 % 256) ≡ n = omega arith in
    rw shape (rw joined (ground arith))

-- `encode_header` refuses exactly the short buffers and the lengths that the type does not allow.
pub encode_header-none :
    (header : List ℕ) (t n : ℕ)
    → (encode_header header t n ≡ none)
      ↔ ((length header < 3) ⊎ (type_payload_len_valid t n ≡ false))
unfolding encode_header
encode_header-none header t n = ground arith

-- What `decode_header` returns has a known type and a length that this type allows; in
-- particular no RF payload above 255 bytes is announced.
pub decode_header_valid :
    (header : List ℕ) {t n : ℕ}
    → decode_header header ≡ some (t, n)
    → (type_payload_len_valid t n ≡ true) × (3 ≤ length header)
unfolding decode_header
decode_header_valid header e = ground arith
