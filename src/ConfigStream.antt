-- ===== src/ConfigStream.antt =====
-- loraham_daemon/config_stream.cpp: the lines in what a client of the configuration socket sends.
-- `line` is line[0 .. len). The callback is any function on a state of its own; it gets the bytes
-- of the line, before the terminating NUL. The null-pointer checks are left out.
pub mod Lines
mod Tests
use lo_ra_ham_daemon.Base.{
  Bool, List, [], false, if◌then◌else◌, leb, length, ltb, true, ℕ, ◌++◌, ◌+◌, ◌==◌, ◌∷◌,
}

abbrev pub line_len : ℕ
line_len = 256

abbrev carriage_return : ℕ
carriage_return = 13

abbrev newline : ℕ
newline = 10

pub record ConfigStream : Type 0 where
  pub line : List ℕ

abbrev pub init : ConfigStream
init = record { line = [] }

module _ {S : Type 0} (on_line : S → List ℕ → S) where
  unfoldable pub emit : ConfigStream → S → ConfigStream × S
  emit stream s = (init, if ltb 0 (length stream.line) then on_line s stream.line else s)

  -- One round of the loop in `feed`; the flag is false where it returns -1 with EMSGSIZE.
  unfoldable pub feed_byte : ℕ → ConfigStream → S → Bool × ConfigStream × S
  unfolding emit
  feed_byte c stream s =
      if c == carriage_return
      then (true, stream, s)
      else if c == newline
      then (true, (emit stream s).0, (emit stream s).1)
      else if leb line_len (length stream.line + 1)
      then (false, init, s)
      else (true, record { line = stream.line ++ c ∷ [] }, s)

  unfoldable pub feed : List ℕ → ConfigStream → S → Bool × ConfigStream × S
  feed [] stream s = (true, stream, s)
  feed (c ∷ buf) stream s =
      let (going, stream', s') = feed_byte c stream s in
      elim going [ true ↦ feed buf stream' s' | false ↦ (false, stream', s') ]

  unfoldable pub flush : ConfigStream → S → ConfigStream × S
  unfolding emit
  flush stream s = if length stream.line == 0 then (stream, s) else emit stream s
