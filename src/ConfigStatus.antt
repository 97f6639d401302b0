-- ===== src/ConfigStatus.antt =====
-- loraham_daemon/config_status.cpp: recognising the lines that are answered without the radio. A
-- result of none is the return value 0. A line is its bytes without the terminating NUL; its first 63
-- bytes are compared, for the buffer of 64.
pub mod Word
pub mod Ranges
use lo_ra_ham_daemon.Base.{
  Bool, List, Option, [], false, if◌then◌else◌, leb, ltb, none, not, some, take, true, ℕ, ◌&&◌,
  ◌++◌, ◌-◌, ◌==◌, ◌||◌, ◌∷◌,
}
use lo_ra_ham_daemon.Base.Int.{ℤ, pos, negsuc}
use lo_ra_ham_daemon.ConfigValue.{strtol, strtoul, Converted}
use lo_ra_ham_daemon.ConfigParser.{same, is_empty, uppercase, space, equals, set_word}
use lo_ra_ham_daemon.ConfigValidate.{one_of}
use lo_ra_ham_daemon.ConfigStatus.Word
use lo_ra_ham_daemon.TxJob.{TxMode, managed, direct}

abbrev is_blank : ℕ → Bool
is_blank c = c == 32 || (c == 9 || (c == 13 || c == 10))

unfoldable pub skip_blanks : List ℕ → List ℕ
skip_blanks [] = []
skip_blanks (c ∷ s) = let rest = skip_blanks s in if is_blank c then rest else c ∷ s

unfoldable pub cut_blanks : List ℕ → List ℕ
cut_blanks [] = []
cut_blanks (c ∷ s) = let rest = cut_blanks s in if is_empty rest && is_blank c then [] else c ∷ rest

unfoldable pub trim_copy : ℕ → List ℕ → List ℕ
trim_copy dst_size src = take (dst_size - 1) (cut_blanks (skip_blanks src))

unfoldable pub command_of : List ℕ → List ℕ
command_of line = uppercase (trim_copy 64 line)

unfoldable pub command_equals : List ℕ → List ℕ → Bool
command_equals line expected = same (command_of line) expected

abbrev pub is_get_status : List ℕ → Bool
is_get_status line = command_equals line Word.get_status

abbrev pub is_get_stats : List ℕ → Bool
is_get_stats line = command_equals line Word.get_stats

abbrev pub is_get_channel : List ℕ → Bool
is_get_channel line = command_equals line Word.get_channel

abbrev pub is_get_channel_noscan : List ℕ → Bool
is_get_channel_noscan line = command_equals line Word.get_channel_noscan

-- "SET ", the key and "="
abbrev setter : List ℕ → List ℕ
setter key = set_word ++ space ∷ (key ++ equals ∷ [])

-- The setters whose value is 1 or 0.
abbrev flag_setter : List ℕ → List ℕ → Option Bool
flag_setter key line =
    let cmd = command_of line in
    if same cmd (setter key ++ 49 ∷ [])
    then some true
    else if same cmd (setter key ++ 48 ∷ [])
    then some false
    else none

unfoldable pub is_set_txresult : List ℕ → Option Bool
is_set_txresult line = flag_setter Word.txresult line

unfoldable pub is_set_txqueue : List ℕ → Option Bool
is_set_txqueue line = flag_setter Word.txqueue line

unfoldable pub is_set_cadmonitor : List ℕ → Option Bool
is_set_cadmonitor line = flag_setter Word.cadmonitor line

unfoldable pub is_set_cadtxaftertimeout : List ℕ → Option Bool
is_set_cadtxaftertimeout line = flag_setter Word.cadtxaftertimeout line

unfoldable pub is_set_txmode : List ℕ → Option TxMode
is_set_txmode line =
    let cmd = command_of line in
    if same cmd (setter Word.txmode ++ Word.managed)
    then some managed
    else if same cmd (setter Word.txmode ++ Word.direct)
    then some direct
    else none

-- What follows the prefix.
unfoldable pub behind : List ℕ → List ℕ → Option (List ℕ)
behind [] cmd = some cmd
behind (p ∷ prefix) [] = none
behind (p ∷ prefix) (c ∷ cmd) = let rest = behind prefix cmd in if p == c then rest else none

-- An empty value is refused; so is one without digits, where *endptr is not the end.
unfoldable pub parse_set_uval : List ℕ → List ℕ → ℕ → ℕ → Option ℕ
parse_set_uval cmd prefix lo hi = elim (behind prefix cmd) [
  | none ↦ none
  | some value ↦ elim (strtoul 10 value) [
    | none ↦ none
    | some c ↦
        if not (is_empty c.rest) || (ltb c.value lo || ltb hi c.value) then none else some c.value
  ]
]

-- v < -lo or v > hi, for limits that are not positive
abbrev outside : ℕ → ℕ → ℤ → Bool
outside lo hi (pos n) = ltb hi n
outside lo hi (negsuc n) = leb lo n

-- The lower limit is -lo.
unfoldable pub parse_set_ival : List ℕ → List ℕ → ℕ → ℕ → Option ℤ
parse_set_ival cmd prefix lo hi = elim (behind prefix cmd) [
  | none ↦ none
  | some value ↦ elim (strtol 10 value) [
    | none ↦ none
    | some c ↦ if not (is_empty c.rest) || outside lo hi c.value then none else some c.value
  ]
]

unfoldable pub is_set_cadrssi : List ℕ → Option ℤ
is_set_cadrssi line = parse_set_ival (command_of line) (setter Word.cadrssi) 130 0

unfoldable pub is_set_cadwait : List ℕ → Option ℕ
is_set_cadwait line = parse_set_uval (command_of line) (setter Word.cadwait) 50 5000

unfoldable pub is_set_cadidle : List ℕ → Option ℕ
is_set_cadidle line = parse_set_uval (command_of line) (setter Word.cadidle) 0 2000

unfoldable pub is_set_cadpoll : List ℕ → Option ℕ
is_set_cadpoll line = parse_set_uval (command_of line) (setter Word.cadpoll) 10 500

pub data Reserved : Type 0 where
  not_reserved invalid_value incomplete : Reserved

-- strcspn(key, "= \t\r\n"): the key and what follows it
unfoldable pub key_of : List ℕ → List ℕ × List ℕ
key_of [] = ([], [])
key_of (c ∷ s) =
    let rest = key_of s in if c == equals || is_blank c then ([], c ∷ s) else (c ∷ rest.0, rest.1)

abbrev pub reserved_keys : List (List ℕ)
reserved_keys =
    Word.txresult ∷ Word.txqueue ∷ Word.txmode ∷ Word.cadrssi ∷ Word.cadmonitor ∷ Word.cadwait
    ∷ Word.cadidle ∷ Word.cadpoll ∷ Word.cadtxaftertimeout ∷ []

-- What follows a reserved key: a value that the setter has refused, or none.
abbrev value_state : List ℕ → Reserved
value_state (e ∷ v ∷ _) = if not (e == equals) || v == space then incomplete else invalid_value
value_state _ = incomplete

unfoldable pub classify_reserved_setter : List ℕ → Reserved
classify_reserved_setter line = elim (behind (set_word ++ space ∷ []) line) [
  | none ↦ not_reserved
  | some rest ↦
      let (key, value) = key_of rest in
      if one_of key reserved_keys then value_state value else not_reserved
]
