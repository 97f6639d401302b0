-- ===== src/ConfigParser.antt =====
-- loraham_daemon/config_parser.cpp: a line of the configuration socket, as a SET command with its
-- keys and values. A string is the list of its bytes; toupper is that of the C locale.
pub mod Words
use lo_ra_ham_daemon.Base.{
  Bool, List, Option, [], false, if◌then◌else◌, leb, length, ltb, none, not, some, suc, take, true,
  zero, ℕ, ◌&&◌, ◌++◌, ◌+◌, ◌-◌, ◌==◌, ◌||◌, ◌∷◌,
}

abbrev pub space : ℕ
space = 32

abbrev pub equals : ℕ
equals = 61

-- "SET" and "MODE"
abbrev pub set_word : List ℕ
set_word = 83 ∷ 69 ∷ 84 ∷ []

abbrev pub mode_word : List ℕ
mode_word = 77 ∷ 79 ∷ 68 ∷ 69 ∷ []

pub record ConfigCommand : Type 0 where
  pub is_set : Bool
  pub has_params : Bool
  pub text : List ℕ
  pub mode : List ℕ
  pub mode_count : ℕ
  pub tokens : List (List ℕ × List ℕ)
  pub malformed_tokens : List (List ℕ)

abbrev pub same : List ℕ → List ℕ → Bool
same [] [] = true
same (x ∷ xs) (y ∷ ys) = x == y && same xs ys
same _ _ = false

abbrev pub is_empty {ℓ} : {A : Type ℓ} → List A → Bool
is_empty [] = true
is_empty (_ ∷ _) = false

abbrev pub upper : ℕ → ℕ
upper c = if leb 97 c && leb c 122 then c - 32 else c

unfoldable pub uppercase : List ℕ → List ℕ
uppercase [] = []
uppercase (c ∷ s) = upper c ∷ uppercase s

-- What stands before the first `c` and behind it; none is npos.
unfoldable pub find : ℕ → List ℕ → Option (List ℕ × List ℕ)
find c [] = none
find c (x ∷ s) =
    let rest = find c s in
    if x == c
    then some ([], s)
    else elim rest [ none ↦ none | some (before, behind) ↦ some (x ∷ before, behind) ]

abbrev pub is_eol : ℕ → Bool
is_eol c = c == 10 || c == 13

-- Takes the line ends off the end.
unfoldable pub strip : List ℕ → List ℕ
strip [] = []
strip (x ∷ s) = let rest = strip s in if is_empty rest && is_eol x then [] else x ∷ rest

unfoldable pub add_token : ConfigCommand → List ℕ → ConfigCommand
add_token cmd token = if is_empty token then cmd else elim (find equals token) [
  | none ↦ record cmd { malformed_tokens = cmd.malformed_tokens ++ token ∷ [] }
  | some (key, val) ↦
      if is_empty key || is_empty val
      then record cmd { malformed_tokens = cmd.malformed_tokens ++ token ∷ [] }
      else if same (uppercase key) mode_word
      then record cmd { mode = uppercase val; mode_count = cmd.mode_count + 1 }
      else record cmd { tokens = cmd.tokens ++ (uppercase key, val) ∷ [] }
]

-- Each round takes at least one byte off `rest`.
unfoldable pub token_loop : ℕ → List ℕ → ConfigCommand → ConfigCommand
token_loop zero rest cmd = cmd
token_loop (suc fuel) [] cmd = cmd
token_loop (suc fuel) (x ∷ xs) cmd = elim (find space (x ∷ xs)) [
  | none ↦ add_token cmd (x ∷ xs)
  | some (token, more) ↦ token_loop fuel more (add_token cmd token)
]

abbrev pub no_command : List ℕ → ConfigCommand
no_command text = record {
  is_set = false;
  has_params = false;
  text = text;
  mode = [];
  mode_count = 0;
  tokens = [];
  malformed_tokens = [];
}

-- The line without its end.
unfoldable pub parse_text : List ℕ → ConfigCommand
parse_text text =
    if not (same text set_word) && not (same (take 4 text) (set_word ++ space ∷ []))
    then no_command text
    else elim (find space text) [
      | none ↦ record (no_command text) { is_set = true }
      | some (_, rest) ↦
          token_loop (length rest) rest
            (record (no_command text) { is_set = true; has_params = true })
    ]

unfoldable pub parse_command : List ℕ → ConfigCommand
parse_command line = parse_text (strip line)

abbrev pub getrssi_word : List ℕ
getrssi_word = 71 ∷ 69 ∷ 84 ∷ 82 ∷ 83 ∷ 83 ∷ 73 ∷ []

unfoldable pub has_radio_key : List (List ℕ × List ℕ) → Bool
has_radio_key [] = false
has_radio_key ((key, _) ∷ tokens) =
    if not (same key getrssi_word) then true else has_radio_key tokens

unfoldable pub touches_radio : List ℕ → Bool
touches_radio line =
    let parsed = parse_command line in
    if not parsed.is_set || not parsed.has_params
    then false
    else if ltb 0 parsed.mode_count
    then true
    else has_radio_key parsed.tokens
