-- ===== src/ConfigParser/Words.antt =====
-- Words set apart by single spaces, and pairs KEY=VALUE, are read as they were written.
use lo_ra_ham_daemon.Base.{
  All, List, [], append-nil, arith, false, length, length-append, none, refl, some, suc, zero, ℕ,
  ◌++◌, ◌+◌, ◌==◌, ◌∷◌, ◌≡◌, ◌≤◌,
}
use lo_ra_ham_daemon.ConfigParser.{
  space, equals, mode_word, ConfigCommand, same, is_empty, uppercase, find, is_eol, strip,
  add_token, token_loop,
}

abbrev pub NotIn : ℕ → List ℕ → Type 0
NotIn c = All (λ x. (x == c) ≡ false)

pub find-append : (c : ℕ) (xs ys : List ℕ) → NotIn c xs → find c (xs ++ c ∷ ys) ≡ some (xs, ys)
unfolding find
find-append c [] ys h = ground arith
find-append c (x ∷ xs) ys (p, h) = rw (p, find-append c xs ys h) refl

pub find-none : (c : ℕ) (xs : List ℕ) → NotIn c xs → find c xs ≡ none
unfolding find
find-none c [] h = refl
find-none c (x ∷ xs) (p, h) = rw (p, find-none c xs h) refl

pub strip-plain : (s : List ℕ) → All (λ x. is_eol x ≡ false) s → strip s ≡ s
unfolding strip
strip-plain [] h = refl
strip-plain (x ∷ []) (p, h) = rw p refl
strip-plain (x ∷ y ∷ s) (p, h) = rw (strip-plain (y ∷ s) h) refl

abbrev pub spaced : List (List ℕ) → List ℕ
spaced [] = []
spaced (w ∷ words) = space ∷ (w ++ spaced words)

abbrev pub add_all : ConfigCommand → List (List ℕ) → ConfigCommand
add_all cmd [] = cmd
add_all cmd (w ∷ words) = add_all (add_token cmd w) words

-- A word that can stand between spaces.
abbrev pub IsWord : List ℕ → Type 0
IsWord w = (is_empty w ≡ false) × NotIn space w

pub token_loop-spaced :
    (fuel : ℕ) (w : List ℕ) (words : List (List ℕ)) (cmd : ConfigCommand)
    → IsWord w
    → All IsWord words
    → length (w ++ spaced words) ≤ fuel
    → token_loop fuel (w ++ spaced words) cmd ≡ add_all cmd (w ∷ words)
unfolding token_loop
token_loop-spaced fuel [] words cmd v vs h = absurd (ground (arith, v.0))
token_loop-spaced zero (x ∷ xs) words cmd v vs h = absurd (omega arith)
token_loop-spaced (suc fuel) (x ∷ xs) [] cmd v vs h =
    rw (append-nil xs) (rw (find-none space (x ∷ xs) v.1, token_loop) refl)
token_loop-spaced (suc fuel) (x ∷ xs) (w ∷ words) cmd v (u, us) h =
    let less : length (w ++ spaced words) ≤ fuel =
      omega (arith, length-append xs (space ∷ (w ++ spaced words))) in
    rw (find-append space (x ∷ xs) (w ++ spaced words) v.1, token_loop)
      (token_loop-spaced fuel w words (add_token cmd (x ∷ xs)) u us less)

-- A key as the parser gives it, which is not that of the mode.
pub record IsKey (key : List ℕ) : Type 0 where
  pub some_byte : is_empty key ≡ false
  pub no_equals : NotIn equals key
  pub capital : uppercase key ≡ key
  pub not_mode : same key mode_word ≡ false

is_empty-append : (xs ys : List ℕ) → is_empty xs ≡ false → is_empty (xs ++ ys) ≡ false
is_empty-append [] ys h = absurd (ground (arith, h))
is_empty-append (x ∷ xs) ys h = refl

pub add_token-pair :
    (cmd : ConfigCommand) (key val : List ℕ)
    → IsKey key
    → is_empty val ≡ false
    → add_token cmd (key ++ equals ∷ val) ≡ record cmd { tokens = cmd.tokens ++ (key, val) ∷ [] }
unfolding add_token
add_token-pair cmd key val k v =
    let token : is_empty (key ++ equals ∷ val) ≡ false =
      is_empty-append key (equals ∷ val) k.some_byte in
    let found : find equals (key ++ equals ∷ val) ≡ some (key, val) =
      find-append equals key val k.no_equals in
    rw (token, found) (ground (arith, k.some_byte, v, k.capital, k.not_mode))

pub add_token-mode :
    (cmd : ConfigCommand) (val : List ℕ)
    → is_empty val ≡ false
    → add_token cmd (mode_word ++ equals ∷ val)
      ≡ record cmd { mode = uppercase val; mode_count = cmd.mode_count + 1 }
unfolding add_token uppercase
add_token-mode cmd val v =
    let found : find equals (mode_word ++ equals ∷ val) ≡ some (mode_word, val) =
      find-append equals mode_word val (refl, (refl, (refl, (refl, tt)))) in
    rw (found) (ground (arith, v))
