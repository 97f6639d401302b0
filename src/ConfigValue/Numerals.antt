-- ===== src/ConfigValue/Numerals.antt =====
-- Decimal numerals are read as the integers they stand for.
use lo_ra_ham_daemon.Base.{
  All, Bool, List, Option, [], ap, arith, false, if◌then◌else◌, none, refl, some, suc, sym, true,
  zero, ℕ, ◌*◌, ◌++◌, ◌+◌, ◌<◌, ◌==◌, ◌∙◌, ◌∷◌, ◌≡◌,
}
use lo_ra_ham_daemon.Base.Int.{ℤ}
use lo_ra_ham_daemon.ConfigParser.{is_empty}
use mathlib.Core.Path.{subst}
use lo_ra_ham_daemon.ConfigValue.{
  is_space, minus, plus, skip_spaces, cut_spaces, trim_ascii, only_trailing_space, digit, digits,
  magnitude, skip_prefix, sign, number_behind, number, signed, strtol, is_int, exact,
  parse_int_exact,
}

abbrev pub AreSpaces : List ℕ → Type 0
AreSpaces = All (λ c. is_space c ≡ true)

abbrev pub NoSpaces : List ℕ → Type 0
NoSpaces = All (λ c. is_space c ≡ false)

abbrev pub AreDigits : List ℕ → Type 0
AreDigits = All (λ d. d < 10)

abbrev pub text : List ℕ → List ℕ
text [] = []
text (d ∷ ds) = (48 + d) ∷ text ds

-- The number that the decimal digits write, behind the number `acc`.
abbrev pub value : ℕ → List ℕ → ℕ
value acc [] = acc
value acc (d ∷ ds) = value (acc * 10 + d) ds

-- A sign may be written or not; some true is a minus.
abbrev pub sign_text : Option Bool → List ℕ
sign_text none = []
sign_text (some true) = minus ∷ []
sign_text (some false) = plus ∷ []

abbrev pub is_negative : Option Bool → Bool
is_negative (some true) = true
is_negative _ = false

skip_spaces-append :
    (before s : List ℕ) → AreSpaces before → skip_spaces (before ++ s) ≡ skip_spaces s
unfolding skip_spaces
skip_spaces-append [] s h = refl
skip_spaces-append (c ∷ before) s (p, h) = rw p (skip_spaces-append before s h)

skip_spaces_none : (s : List ℕ) → NoSpaces s → skip_spaces s ≡ s
unfolding skip_spaces
skip_spaces_none [] h = refl
skip_spaces_none (c ∷ s) (p, h) = rw p refl

skip_spaces_behind : (c : ℕ) (s : List ℕ) → is_space c ≡ false → skip_spaces (c ∷ s) ≡ c ∷ s
unfolding skip_spaces
skip_spaces_behind c s p = rw p refl

cut_spaces_all : (s : List ℕ) → AreSpaces s → cut_spaces s ≡ []
unfolding cut_spaces
cut_spaces_all [] h = refl
cut_spaces_all (c ∷ s) (p, h) = rw (cut_spaces_all s h, p) refl

cut_spaces-append :
    (s behind : List ℕ) → NoSpaces s → AreSpaces behind → cut_spaces (s ++ behind) ≡ s
unfolding cut_spaces
cut_spaces-append [] behind h b = cut_spaces_all behind b
cut_spaces-append (c ∷ s) behind (p, h) b = rw (cut_spaces-append s behind h b) (ground (arith, p))

-- Trimming takes the spaces around a word off.
pub trim_ascii-word :
    (before : List ℕ) (c : ℕ) (s behind : List ℕ)
    → AreSpaces before
    → NoSpaces (c ∷ s)
    → AreSpaces behind
    → trim_ascii (before ++ ((c ∷ s) ++ behind)) ≡ c ∷ s
unfolding trim_ascii
trim_ascii-word before c s behind b n e =
    rw (skip_spaces-append before (c ∷ (s ++ behind)) b, skip_spaces_behind c (s ++ behind) n.0)
      (cut_spaces-append (c ∷ s) behind n e)

digit_lem : (d : ℕ) → d < 10 → digit 10 (48 + d) ≡ some d
unfolding digit
digit_lem d h = ground arith

digits-text : (acc : ℕ) (ds : List ℕ) → AreDigits ds → digits 10 acc (text ds) ≡ (value acc ds, [])
unfolding digits
digits-text acc [] h = refl
digits-text acc (d ∷ ds) (p, h) = rw (digit_lem d p, digits) (digits-text (acc * 10 + d) ds h)

magnitude-text :
    (d : ℕ) (ds : List ℕ)
    → AreDigits (d ∷ ds)
    → magnitude 10 (text (d ∷ ds)) ≡ some (value d ds, [])
unfolding magnitude
magnitude-text d ds (p, h) = rw (digit_lem d p, magnitude) (rw (digits-text d ds h) refl)

skip_prefix_decimal : (s : List ℕ) → skip_prefix 10 s ≡ s
unfolding skip_prefix
skip_prefix_decimal [] = refl
skip_prefix_decimal (a ∷ []) = refl
skip_prefix_decimal (a ∷ b ∷ []) = refl
skip_prefix_decimal (a ∷ b ∷ c ∷ s) = refl

sign-sign_text :
    (sg : Option Bool) (d : ℕ) (ds : List ℕ)
    → d < 10
    → sign (sign_text sg ++ text (d ∷ ds)) ≡ (is_negative sg, text (d ∷ ds))
unfolding sign
sign-sign_text none d ds h =
    let m : ((48 + d) == minus) ≡ false = ground arith in
    let p : ((48 + d) == plus) ≡ false = ground arith in rw (m, p) refl
sign-sign_text (some true) d ds h = refl
sign-sign_text (some false) d ds h = refl

text-NoSpaces : (ds : List ℕ) → AreDigits ds → NoSpaces (text ds)
text-NoSpaces [] h = tt
text-NoSpaces (d ∷ ds) (p, h) = (ground arith, text-NoSpaces ds h)

sign_text-NoSpaces : (sg : Option Bool) (s : List ℕ) → NoSpaces s → NoSpaces (sign_text sg ++ s)
sign_text-NoSpaces none s h = h
sign_text-NoSpaces (some true) s h = (refl, h)
sign_text-NoSpaces (some false) s h = (refl, h)

number-text :
    (sg : Option Bool) (d : ℕ) (ds : List ℕ)
    → AreDigits (d ∷ ds)
    → number 10 (sign_text sg ++ text (d ∷ ds)) ≡ some (is_negative sg, value d ds, [])
unfolding number magnitude skip_prefix
number-text sg d ds h =
    let word = sign_text sg ++ text (d ∷ ds) in
    let plain : skip_spaces word ≡ word =
      skip_spaces_none word (sign_text-NoSpaces sg (text (d ∷ ds)) (text-NoSpaces (d ∷ ds) h)) in
    let signs : sign (skip_spaces word) ≡ (is_negative sg, text (d ∷ ds)) =
      ap sign plain ∙ sign-sign_text sg d ds h.0 in
    ap (number_behind 10) signs
    ∙ rw (skip_prefix_decimal (text (d ∷ ds)), magnitude-text d ds h) refl

starts :
    (sg : Option Bool) (d : ℕ) (ds : List ℕ)
    → (c : ℕ) × (s : List ℕ) × (sign_text sg ++ text (d ∷ ds) ≡ c ∷ s)
starts none d ds = (48 + d, text ds, refl)
starts (some true) d ds = (minus, text (d ∷ ds), refl)
starts (some false) d ds = (plus, text (d ∷ ds), refl)

-- What int can hold of a number.
abbrev pub int_of : Bool → ℕ → Option ℤ
int_of negative m = if is_int (signed negative m) then some (signed negative m) else none

in_range :
    (negative : Bool) (m : ℕ) (s : List ℕ)
    → number 10 s ≡ some (negative, m, [])
    → (elim (exact (strtol 10 s)) [
      | none ↦ none
      | some parsed ↦ if is_int parsed then some parsed else none
    ])
      ≡ int_of negative m
unfolding strtol only_trailing_space
in_range true zero s e = rw e refl
in_range true (suc m) s e = rw e (ground arith)
in_range false m s e = rw e (ground arith)

-- Spaces, an optional sign, at least one decimal digit and spaces again are read as the integer that
-- the digits write, negative behind a minus sign, exactly where a 32-bit int can hold it; else
-- parsing fails.
pub parse_int_exact-text :
    (before : List ℕ) (sg : Option Bool) (d : ℕ) (ds behind : List ℕ)
    → AreSpaces before
    → AreDigits (d ∷ ds)
    → AreSpaces behind
    → parse_int_exact (before ++ ((sign_text sg ++ text (d ∷ ds)) ++ behind))
      ≡ int_of (is_negative sg) (value d ds)
unfolding parse_int_exact
parse_int_exact-text before sg d ds behind b h e =
    let word = sign_text sg ++ text (d ∷ ds) in
    let (c, s, w) = starts sg d ds in
    let n = sign_text-NoSpaces sg (text (d ∷ ds)) (text-NoSpaces (d ∷ ds) h) in
    let trimmed : trim_ascii (before ++ (word ++ behind)) ≡ word =
      subst (λ l. NoSpaces l → trim_ascii (before ++ (l ++ behind)) ≡ l) (sym w)
        (λ m. trim_ascii-word before c s behind b m e) n in
    let full : is_empty word ≡ false = ap is_empty w in
    rw (trimmed, full) (in_range (is_negative sg) (value d ds) word (number-text sg d ds h))
