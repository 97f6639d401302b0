-- ===== src/ConfigReplay/RoundTrip.antt =====
-- What is replayed is what was noted.
use lo_ra_ham_daemon.Base.{
  All, All-append, List, [], ap, append-nil, append_assoc, arith, false, if◌then◌else◌, inl, inr,
  length, refl, some, sym, true, ℕ, ◌&&◌, ◌++◌, ◌==◌, ◌∙◌, ◌∷◌, ◌≡◌, ◌⊎◌,
}
use lo_ra_ham_daemon.ConfigParser.{
  space, equals, set_word, mode_word, ConfigCommand, is_empty, uppercase, is_eol, strip, find,
  no_command, parse_text, parse_command,
}
use lo_ra_ham_daemon.ConfigParser.Words.{
  NotIn, find-append, strip-plain, spaced, add_all, IsWord, token_loop-spaced, IsKey,
  add_token-pair, add_token-mode,
}
use lo_ra_ham_daemon.ConfigReplay.{Replay, write_keys, command}

-- Bytes that neither separate words nor end the line.
abbrev pub IsInner : ℕ → Type 0
IsInner x = ((x == space) ≡ false) × (is_eol x ≡ false)

-- A pair as the parser hands it on to be applied and noted.
abbrev pub IsPair : List ℕ × List ℕ → Type 0
IsPair (key, val) = IsKey key × All IsInner key × (is_empty val ≡ false) × All IsInner val

-- A mode as the parser hands it on.
pub record IsMode (mode : List ℕ) : Type 0 where
  pub some_byte : is_empty mode ≡ false
  pub inner : All IsInner mode
  pub capital : uppercase mode ≡ mode

abbrev word_of : List ℕ × List ℕ → List ℕ
word_of (key, val) = key ++ equals ∷ val

abbrev words_of : List (List ℕ × List ℕ) → List (List ℕ)
words_of [] = []
words_of (pair ∷ keys) = word_of pair ∷ words_of keys

write_keys_lem : (keys : List (List ℕ × List ℕ)) → write_keys keys ≡ spaced (words_of keys)
unfolding write_keys
write_keys_lem [] = refl
write_keys_lem ((k, v) ∷ keys) =
    ap (λ l. space ∷ l)
      (ap (λ l. k ++ equals ∷ (v ++ l)) (write_keys_lem keys)
        ∙ sym (append_assoc k (equals ∷ v) (spaced (words_of keys))))

inner_spaces : (s : List ℕ) → All IsInner s → NotIn space s
inner_spaces [] h = tt
inner_spaces (x ∷ s) ((p, _), h) = (p, inner_spaces s h)

word_of-IsInner :
    (key val : List ℕ) → All IsInner key → All IsInner val → All IsInner (key ++ equals ∷ val)
word_of-IsInner key val k v = All-append IsInner key (equals ∷ val) k ((refl, refl), v)

append_some : (xs : List ℕ) (y : ℕ) (ys : List ℕ) → is_empty (xs ++ y ∷ ys) ≡ false
append_some [] y ys = refl
append_some (x ∷ xs) y ys = refl

words_of-IsWord : (keys : List (List ℕ × List ℕ)) → All IsPair keys → All IsWord (words_of keys)
words_of-IsWord [] h = tt
words_of-IsWord ((k, v) ∷ keys) ((_, kk, _, vv), h) = (
  (append_some k equals v, inner_spaces (k ++ equals ∷ v) (word_of-IsInner k v kk vv)),
  words_of-IsWord keys h,
)

add_all-words_of :
    (keys : List (List ℕ × List ℕ)) (cmd : ConfigCommand)
    → All IsPair keys
    → add_all cmd (words_of keys) ≡ record cmd { tokens = cmd.tokens ++ keys }
add_all-words_of [] cmd h = ap (λ t. record cmd { tokens = t }) (sym (append-nil cmd.tokens))
add_all-words_of ((k, v) ∷ keys) cmd ((key, _, val, _), h) =
    ap (λ c. add_all c (words_of keys)) (add_token-pair cmd k v key val)
    ∙ add_all-words_of keys (record cmd { tokens = cmd.tokens ++ (k, v) ∷ [] }) h
    ∙ ap (λ t. record cmd { tokens = t }) (append_assoc cmd.tokens ((k, v) ∷ []) keys)

-- No line end in the whole line, so that nothing of it is stripped.
abbrev NotEol : ℕ → Type 0
NotEol x = is_eol x ≡ false

spaced-NotEol : (words : List (List ℕ)) → All (All NotEol) words → All NotEol (spaced words)
spaced-NotEol [] h = tt
spaced-NotEol (w ∷ words) (v, h) =
    (refl, All-append NotEol w (spaced words) v (spaced-NotEol words h))

inner_eols : (s : List ℕ) → All IsInner s → All NotEol s
inner_eols [] h = tt
inner_eols (x ∷ s) ((_, p), h) = (p, inner_eols s h)

words_of-NotEol :
    (keys : List (List ℕ × List ℕ)) → All IsPair keys → All (All NotEol) (words_of keys)
words_of-NotEol [] h = tt
words_of-NotEol ((k, v) ∷ keys) ((_, kk, _, vv), h) =
    (inner_eols (k ++ equals ∷ v) (word_of-IsInner k v kk vv), words_of-NotEol keys h)

-- A SET line of words is read word by word.
parse_command-spaced :
    (w : List ℕ) (words : List (List ℕ))
    → IsWord w
    → All IsWord words
    → All (All NotEol) (w ∷ words)
    → let text = set_word ++ spaced (w ∷ words) in
      parse_command text
      ≡ add_all (record (no_command text) { is_set = true; has_params = true }) (w ∷ words)
unfolding parse_command parse_text
parse_command-spaced w words v vs n =
    let text = set_word ++ spaced (w ∷ words) in
    let whole : strip text ≡ text =
      strip-plain text (refl, (refl, (refl, spaced-NotEol (w ∷ words) n))) in
    let found : find space text ≡ some (set_word, w ++ spaced words) =
      find-append space set_word (w ++ spaced words) (refl, (refl, (refl, tt))) in
    let read =
      token_loop-spaced (length (w ++ spaced words)) w words
        (record (no_command text) { is_set = true; has_params = true }) v vs (omega arith) in
    ap parse_text whole ∙ rw found read

-- A replay of pairs and a mode that the parser could have handed on (without spaces and line ends,
-- keys and mode in capitals, no key MODE; the mode may be absent), if there are any, is a line
-- that the parser reads back: the same mode, once, the same pairs in their order, and nothing
-- malformed.
pub parse_command-command :
    (mode : List ℕ) (keys : List (List ℕ × List ℕ))
    → (mode ≡ []) ⊎ IsMode mode
    → All IsPair keys
    → is_empty mode && is_empty keys ≡ false
    → let r : Replay = record { mode = mode; keys = keys } in
      parse_command (command r) ≡ record {
        is_set = true;
        has_params = true;
        text = command r;
        mode = mode;
        mode_count = (if is_empty mode then 0 else 1);
        tokens = keys;
        malformed_tokens = [];
      }
unfolding command
parse_command-command [] [] m h e = absurd (ground (arith, e))
parse_command-command [] ((k, v) ∷ keys) m h e =
    let ws = words_of-IsWord ((k, v) ∷ keys) h in
    let eols = words_of-NotEol ((k, v) ∷ keys) h in
    let line : write_keys ((k, v) ∷ keys) ≡ spaced (words_of ((k, v) ∷ keys)) =
      write_keys_lem ((k, v) ∷ keys) in
    let text = set_word ++ spaced (words_of ((k, v) ∷ keys)) in
    rw line (
      parse_command-spaced (word_of (k, v)) (words_of keys) ws.0 ws.1 eols
      ∙ add_all-words_of ((k, v) ∷ keys)
          (record (no_command text) { is_set = true; has_params = true }) h)
parse_command-command (x ∷ xs) keys (inl empty) h e = absurd (cc)
parse_command-command (x ∷ xs) keys (inr m) h e =
    let word = mode_word ++ equals ∷ x ∷ xs in
    let inner : All IsInner word =
      ((refl, refl), ((refl, refl), ((refl, refl), ((refl, refl), ((refl, refl), m.inner))))) in
    let text = set_word ++ spaced (word ∷ words_of keys) in
    let start : ConfigCommand = record (no_command text) { is_set = true; has_params = true } in
    rw (write_keys_lem keys) (
      parse_command-spaced word (words_of keys) (refl, inner_spaces word inner)
        (words_of-IsWord keys h) (inner_eols word inner, words_of-NotEol keys h)
      ∙ ap (λ c. add_all c (words_of keys)) (add_token-mode start (x ∷ xs) refl)
      ∙ ap (λ l. add_all (record start { mode = l; mode_count = 1 }) (words_of keys)) m.capital
      ∙ add_all-words_of keys (record start { mode = x ∷ xs; mode_count = 1 }) h)
