-- ===== src/ConfigStream/Lines.antt =====
-- Which lines the stream hands out.
use lo_ra_ham_daemon.Base.{
  All, All-append, Bool, Bool-cases, List, [], ap, append-nil, append_assoc, arith, false,
  if◌then◌else◌, inl, inr, leb, length, length-append, ltb, not, refl, true, ℕ, ◌++◌, ◌+◌, ◌<◌,
  ◌==◌, ◌||◌, ◌∙◌, ◌∷◌, ◌≡◌, ◌≤◌,
}
use lo_ra_ham_daemon.ConfigStream.{
  line_len, carriage_return, newline, ConfigStream, init, emit, feed_byte, feed,
}

-- A byte that belongs to a line.
abbrev pub is_plain : ℕ → Bool
is_plain c = not (c == carriage_return || c == newline)

abbrev pub IsPlain : ℕ → Type 0
IsPlain c = is_plain c ≡ true

-- A line that may wait in the buffer, and one that may be handed out.
pub record IsLine (line : List ℕ) : Type 0 where
  pub plain : All IsPlain line
  pub short : length line ≤ 255

-- What a client writes for some lines.
abbrev pub wire : List (List ℕ) → List ℕ
wire [] = []
wire (line ∷ lines) = line ++ carriage_return ∷ newline ∷ wire lines

-- What the callback has seen of them: the lines that are not blank, in order.
abbrev pub deliver : {S : Type 0} → (S → List ℕ → S) → S → List (List ℕ) → S
deliver on_line s [] = s
deliver on_line s (line ∷ lines) =
    deliver on_line (if ltb 0 (length line) then on_line s line else s) lines

module _ {S : Type 0} (on_line : S → List ℕ → S) where
  -- The loop goes on with more bytes, unless a line was too long.
  unfoldable pub resume : List ℕ → Bool × ConfigStream × S → Bool × ConfigStream × S
  resume buf (going, stream, s) = elim going [
    | true ↦ feed on_line buf stream s
    | false ↦ (false, stream, s)
  ]

  feed_byte-feed :
      (c : ℕ) (buf : List ℕ) (stream : ConfigStream) (s : S)
      → feed on_line (c ∷ buf) stream s ≡ resume buf (feed_byte on_line c stream s)
  unfolding feed resume
  feed_byte-feed c buf stream s = refl

  resume-append :
      (a b : List ℕ)
      → ((stream : ConfigStream) (s : S)
          → feed on_line (a ++ b) stream s ≡ resume b (feed on_line a stream s))
      → (r : Bool × ConfigStream × S) → resume (a ++ b) r ≡ resume b (resume a r)
  unfolding resume
  resume-append a b h (true, stream, s) = h stream s
  resume-append a b h (false, stream, s) = refl

  -- Bytes can arrive in any pieces: feeding two pieces joined is feeding the first and going on
  -- with the second, unless a line of the first was too long.
  feed-append :
      (a b : List ℕ) (stream : ConfigStream) (s : S)
      → feed on_line (a ++ b) stream s ≡ resume b (feed on_line a stream s)
  unfolding feed resume
  feed-append [] b stream s = refl
  feed-append (c ∷ a) b stream s =
      resume-append a b (feed-append a b) (feed_byte on_line c stream s)

  feed_plain :
      (part line : List ℕ) (s : S) (rest : List ℕ)
      → All IsPlain part
      → length line + length part ≤ 255
      → feed on_line (part ++ rest) (record { line = line }) s
        ≡ feed on_line rest (record { line = line ++ part }) s
  unfolding feed feed_byte resume
  feed_plain [] line s rest h n = rw (append-nil line) refl
  feed_plain (c ∷ part) line s rest (p, h) n =
      let fits : feed_byte on_line c (record { line = line }) s
          ≡ (true, record { line = line ++ c ∷ [] }, s) =
        ground arith in
      feed_byte-feed c (part ++ rest) (record { line = line }) s
      ∙ ap (resume (part ++ rest)) fits
      ∙ rw (← append_assoc line (c ∷ []) part)
          (feed_plain part (line ++ c ∷ []) s rest h (omega (arith, length-append line (c ∷ []))))

  -- Lines of at most 255 bytes without CR or LF, each ended by CR LF, are handed out in order,
  -- without the blank ones, and leave nothing in the buffer, if that was empty before.
  pub feed-wire :
      (lines : List (List ℕ)) (s : S)
      → All IsLine lines
      → feed on_line (wire lines) init s ≡ (true, init, deliver on_line s lines)
  unfolding feed feed_byte emit
  feed-wire [] s h = refl
  feed-wire (line ∷ lines) s (v, h) =
      feed_plain line [] s (carriage_return ∷ newline ∷ wire lines) v.plain (omega (arith, v.short))
      ∙ feed-wire lines (if ltb 0 (length line) then on_line s line else s) h

  -- A line of 256 bytes without CR or LF, from an empty buffer, is refused at the last of them,
  -- whatever follows: nothing of it is handed out and the buffer is cleared.
  feed_too_long :
      (part : List ℕ) (c : ℕ) (rest : List ℕ) (s : S)
      → All IsPlain part
      → IsPlain c
      → length part ≡ 255
      → feed on_line (part ++ c ∷ rest) init s ≡ (false, init, s)
  unfolding feed feed_byte resume
  feed_too_long part c rest s h p n =
      let full : feed_byte on_line c (record { line = part }) s ≡ (false, init, s) = ground arith in
      feed_plain part [] s (c ∷ rest) h (omega (arith, n))
      ∙ feed_byte-feed c rest (record { line = part }) s
      ∙ ap (resume rest) full

  feed_byte-IsLine :
      (P : S → Type 0)
      → ((s : S) (line : List ℕ) → P s → IsLine line → 0 < length line → P (on_line s line))
      → (c : ℕ) (stream : ConfigStream) (s : S) → IsLine stream.line
      → P s
      → let (_, stream', s') = feed_byte on_line c stream s in IsLine stream'.line × P s'
  unfolding feed_byte emit
  feed_byte-IsLine P h c stream s v p =
      let blank : IsLine [] = record { plain = tt; short = omega arith } in
      elim (Bool-cases (c == carriage_return)) [
        | inl e ↦ rw e (v, p)
        | inr e ↦ elim (Bool-cases (c == newline)) [
          | inl f ↦ elim (Bool-cases (ltb 0 (length stream.line))) [
            | inl g ↦ rw (e, f, g) (blank, h s stream.line p v (ground arith))
            | inr g ↦ rw (e, f, g) (blank, p)
          ]
          | inr f ↦ elim (Bool-cases (leb line_len (length stream.line + 1))) [
            | inl g ↦ rw (e, f, g) (blank, p)
            | inr g ↦
                rw (e, f, g)
                  (
                    record {
                      plain = All-append IsPlain stream.line (c ∷ []) v.plain (ground arith, tt);
                      short = ground (arith, length-append stream.line (c ∷ []));
                    },
                    p,
                  )
          ]
        ]
      ]

  -- Whatever the bytes, from a buffer in order: it keeps at most 255 bytes without CR or LF, and
  -- so does every line that is handed out, which is not blank. A property of the callback's state
  -- that such lines keep is kept.
  feed-IsLine :
      (P : S → Type 0)
      → ((s : S) (line : List ℕ) → P s → IsLine line → 0 < length line → P (on_line s line))
      → (buf : List ℕ) (stream : ConfigStream) (s : S) → IsLine stream.line
      → P s
      → let (_, stream', s') = feed on_line buf stream s in IsLine stream'.line × P s'
  unfolding feed
  feed-IsLine P h [] stream s v p = (v, p)
  feed-IsLine P h (c ∷ buf) stream s v p =
      let (going, stream', s') = feed_byte on_line c stream s in
      let (v', p') = feed_byte-IsLine P h c stream s v p in
      elim (Bool-cases going) [
        | inl e ↦ rw (e, feed) (feed-IsLine P h buf stream' s' v' p')
        | inr e ↦ rw (e, feed) (v', p')
      ]
