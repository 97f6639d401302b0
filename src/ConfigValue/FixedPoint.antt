-- ===== src/ConfigValue/FixedPoint.antt =====
-- The operations of Floats on fixed-point numbers, for evaluating the model: a float counts units of
-- 1/10000, a double units of 1/1000, and a negative double is larger than all others.
use lo_ra_ham_daemon.Base.{
  List, Option, false, leb, ltb, none, some, true, ℕ, ◌*◌, ◌+◌, ◌-◌, ◌/◌, ◌^◌,
}
use lo_ra_ham_daemon.Base.Int.{ℤ, pos, negsuc}
use lo_ra_ham_daemon.ConfigValue.{Floats, Converted, number}

abbrev read : List ℕ → Option (Converted ℕ)
read s = elim (number 10 s) [
  | none ↦ none
  | some (_, m, rest) ↦ some (record { value = m * 10000; out_of_range = false; rest = rest })
]

abbrev of_integer : ℤ → ℕ
of_integer (pos n) = n * 1000
of_integer (negsuc n) = 10 ^ 15

abbrev pub fixed_point : Floats
fixed_point = record {
  Float = ℕ;
  Double = ℕ;
  decimal = λ n k. n * 10000 / 10 ^ k;
  strtof = read;
  is_finite = λ x. true;
  less = ltb;
  at_most = leb;
  difference = λ x y. (x - y) + (y - x);
  magnitude_of = λ x. x;
  widen = λ x. x / 10;
  of_int = of_integer;
  add = λ x y. x + y;
  subtract = λ x y. x - y;
  multiply = λ x y. x * y / 1000;
  divide = λ x y. x * 1000 / y;
  ceiling = λ x. (x + 999) / 1000 * 1000;
  below = ltb;
  reaches = λ x y. leb y x;
}
