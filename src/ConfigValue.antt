-- ===== src/ConfigValue.antt =====
-- loraham_daemon/config_value.cpp: the numbers in the values of a configuration command. A string is
-- the list of its bytes, none of them NUL; isspace is that of the C locale, long has 64 bits and int
-- has 32. A result of none is the return value false. Floats are the operations that Floats lists.
pub mod Numerals
pub mod FixedPoint
mod Tests
use lo_ra_ham_daemon.Base.{
  Bool, List, Option, [], false, if◌then◌else◌, leb, ltb, none, not, some, suc, true, zero, ℕ, ◌%◌,
  ◌&&◌, ◌*◌, ◌+◌, ◌-◌, ◌==◌, ◌^◌, ◌||◌, ◌∷◌,
}
use lo_ra_ham_daemon.Base.Int.{ℤ, pos, negsuc}
use lo_ra_ham_daemon.ConfigParser.{is_empty}

abbrev pub is_space : ℕ → Bool
is_space c = c == 32 || (leb 9 c && leb c 13)

abbrev pub minus : ℕ
minus = 45

abbrev pub plus : ℕ
plus = 43

unfoldable pub skip_spaces : List ℕ → List ℕ
skip_spaces [] = []
skip_spaces (c ∷ s) = let rest = skip_spaces s in if is_space c then rest else c ∷ s

unfoldable pub cut_spaces : List ℕ → List ℕ
cut_spaces [] = []
cut_spaces (c ∷ s) = let rest = cut_spaces s in if is_empty rest && is_space c then [] else c ∷ rest

unfoldable pub trim_ascii : List ℕ → List ℕ
trim_ascii value = cut_spaces (skip_spaces value)

abbrev pub lower : ℕ → ℕ
lower c = if leb 65 c && leb c 90 then c + 32 else c

unfoldable pub lower_ascii : List ℕ → List ℕ
lower_ascii [] = []
lower_ascii (c ∷ s) = lower c ∷ lower_ascii s

unfoldable pub only_trailing_space : List ℕ → Bool
only_trailing_space [] = true
only_trailing_space (c ∷ s) = let rest = only_trailing_space s in if is_space c then rest else false

-- The value of a digit; none where `c` is no digit of the base.
unfoldable pub digit : ℕ → ℕ → Option ℕ
digit base c =
    let v =
      if leb 48 c && leb c 57
      then c - 48
      else if leb 65 c && leb c 90
      then c - 55
      else if leb 97 c && leb c 122
      then c - 87
      else 36 in
    if ltb v base then some v else none

unfoldable pub digits : ℕ → ℕ → List ℕ → ℕ × List ℕ
digits base acc [] = (acc, [])
digits base acc (c ∷ s) = elim (digit base c) [
  | none ↦ (acc, c ∷ s)
  | some v ↦ digits base (acc * base + v) s
]

-- What strtol and strtoul read behind a sign: the magnitude and what follows it.
unfoldable pub magnitude : ℕ → List ℕ → Option (ℕ × List ℕ)
magnitude base [] = none
magnitude base (c ∷ s) = elim (digit base c) [ none ↦ none | some v ↦ some (digits base v s) ]

-- "0x" in front of a hexadecimal digit
unfoldable pub skip_prefix : ℕ → List ℕ → List ℕ
skip_prefix base (z ∷ x ∷ c ∷ s) =
    if base == 16 && z == 48 && lower x == 120
    then (elim (digit 16 c) [ none ↦ z ∷ x ∷ c ∷ s | some _ ↦ c ∷ s ])
    else z ∷ x ∷ c ∷ s
skip_prefix base s = s

-- The flag is true behind a minus sign.
unfoldable pub sign : List ℕ → Bool × List ℕ
sign [] = (false, [])
sign (c ∷ s) = if c == minus then (true, s) else if c == plus then (false, s) else (false, c ∷ s)

abbrev pub number_behind : ℕ → Bool × List ℕ → Option (Bool × ℕ × List ℕ)
number_behind base (negative, unsigned) = elim (magnitude base (skip_prefix base unsigned)) [
  | none ↦ none
  | some (m, rest) ↦ some (negative, m, rest)
]

unfoldable pub number : ℕ → List ℕ → Option (Bool × ℕ × List ℕ)
number base s = number_behind base (sign (skip_spaces s))

abbrev pub signed : Bool → ℕ → ℤ
signed false m = pos m
signed true zero = pos 0
signed true (suc m) = negsuc m

-- What a conversion reports: its value, whether errno is ERANGE, and the text at *end.
pub record Converted {ℓ} (A : Type ℓ) : Type ℓ where
  pub value : A
  pub out_of_range : Bool
  pub rest : List ℕ

-- none where no digit stands: *end is then the start.
unfoldable pub strtol : ℕ → List ℕ → Option (Converted ℤ)
strtol base s = elim (number base s) [
  | none ↦ none
  | some (true, m, rest) ↦
      if leb m (2 ^ 63)
      then some (record { value = signed true m; out_of_range = false; rest = rest })
      else some (record { value = signed true (2 ^ 63); out_of_range = true; rest = rest })
  | some (false, m, rest) ↦
      if ltb m (2 ^ 63)
      then some (record { value = pos m; out_of_range = false; rest = rest })
      else some (record { value = pos (2 ^ 63 - 1); out_of_range = true; rest = rest })
]

-- A negative number is taken modulo 2 ^ 64.
unfoldable pub strtoul : ℕ → List ℕ → Option (Converted ℕ)
strtoul base s = elim (number base s) [
  | none ↦ none
  | some (negative, m, rest) ↦
      if leb (2 ^ 64) m
      then some (record { value = 2 ^ 64 - 1; out_of_range = true; rest = rest })
      else some (record {
        value = (if negative then (2 ^ 64 - m) % 2 ^ 64 else m);
        out_of_range = false;
        rest = rest;
      })
]

abbrev pub is_int : ℤ → Bool
is_int (pos n) = ltb n (2 ^ 31)
is_int (negsuc n) = ltb n (2 ^ 31)

-- The conversion took the whole text, but for spaces, and met no range error.
abbrev pub exact {ℓ} : {A : Type ℓ} → Option (Converted A) → Option A
exact none = none
exact (some c) =
    if c.out_of_range then none else if not (only_trailing_space c.rest) then none else some c.value

unfoldable pub parse_int_exact : List ℕ → Option ℤ
parse_int_exact value =
    let trimmed = trim_ascii value in
    if is_empty trimmed then none else elim (exact (strtol 10 trimmed)) [
      | none ↦ none
      | some parsed ↦ if is_int parsed then some parsed else none
    ]

abbrev pub has_sign : List ℕ → Bool
has_sign [] = false
has_sign (c ∷ s) = c == minus || c == plus

abbrev u32 : Option ℕ → Option ℕ
u32 none = none
u32 (some parsed) = if ltb parsed (2 ^ 32) then some parsed else none

unfoldable pub parse_uint32_exact : List ℕ → Option ℕ
parse_uint32_exact value =
    let trimmed = trim_ascii value in
    if is_empty trimmed || has_sign trimmed then none else u32 (exact (strtoul 10 trimmed))

unfoldable pub parse_bool01_exact : List ℕ → Option Bool
parse_bool01_exact value = elim (parse_int_exact value) [
  | some (pos zero) ↦ some false
  | some (pos (suc zero)) ↦ some true
  | _ ↦ none
]

-- 16 where more than "0x" stands, else 10
unfoldable pub base_of : List ℕ → ℕ
base_of (z ∷ x ∷ c ∷ s) = if z == 48 && (x == 120 || x == 88) then 16 else 10
base_of s = 10

unfoldable pub parse_hex_or_dec_u32_exact : List ℕ → Option ℕ
parse_hex_or_dec_u32_exact value =
    let trimmed = trim_ascii value in
    if is_empty trimmed || has_sign trimmed
    then none
    else u32 (exact (strtoul (base_of trimmed) trimmed))

-- The machine's floating-point operations that the code uses: float, then double.
pub record Floats : Type 1 where
  pub Float : Type 0
  pub Double : Type 0
  -- the literal n / 10 ^ k
  pub decimal : ℕ → ℕ → Float
  -- the flag is true where errno is ERANGE
  pub strtof : List ℕ → Option (Converted Float)
  pub is_finite : Float → Bool
  pub less : Float → Float → Bool
  pub at_most : Float → Float → Bool
  pub difference : Float → Float → Float
  pub magnitude_of : Float → Float
  pub widen : Float → Double
  pub of_int : ℤ → Double
  pub add : Double → Double → Double
  pub subtract : Double → Double → Double
  pub multiply : Double → Double → Double
  pub divide : Double → Double → Double
  pub ceiling : Double → Double
  pub below : Double → Double → Bool
  pub reaches : Double → Double → Bool

module _ (fl : Floats) where
  open fl use {Float, strtof, is_finite, less, difference, magnitude_of, decimal}

  unfoldable pub parse_float_exact : List ℕ → Option Float
  parse_float_exact value =
      let trimmed = trim_ascii value in
      if is_empty trimmed then none else elim (exact (strtof trimmed)) [
        | none ↦ none
        | some parsed ↦ if is_finite parsed then some parsed else none
      ]

  unfoldable pub float_equal : Float → Float → Bool
  float_equal value expected = less (magnitude_of (difference value expected)) (decimal 1 4)
