-- ===== src/Base/Int.antt =====
-- Signed integers, as far as the daemon converts them to 16-bit words.
use Prim.Native.Nat.{ℕ, ◌-◌, ◌%◌, ◌<◌}
use mathlib.Core.Path.{◌≡◌}
use mathlib.Core.Bool.{Bool, false}
use native.Mathlib.Omega.{arith}
use lo_ra_ham_daemon.Base.Tests.{ltb, ◌==◌, if◌then◌else◌}

-- `negsuc n` is -(n + 1).
pub data ℤ : Type 0 where
  pos : ℕ → ℤ
  negsuc : ℕ → ℤ

-- x == 0
abbrev pub is_zero : ℤ → Bool
is_zero (pos n) = n == 0
is_zero (negsuc n) = false

-- (uint16_t)x
abbrev pub to_u16 : ℤ → ℕ
to_u16 (pos n) = n % 65536
to_u16 (negsuc n) = 65535 - n % 65536

-- (int16_t)w of a 16-bit word, what a client reads back
abbrev pub from_u16 : ℕ → ℤ
from_u16 w = if ltb w 32768 then pos w else negsuc (65535 - w)

-- The values of int16_t.
abbrev pub IsInt16 : ℤ → Type 0
IsInt16 (pos n) = n < 32768
IsInt16 (negsuc n) = n < 32768

pub from_u16-to_u16 : (x : ℤ) → IsInt16 x → from_u16 (to_u16 x) ≡ x
from_u16-to_u16 (pos n) h = ground arith
from_u16-to_u16 (negsuc n) h = ground arith

pub to_u16-lt : (x : ℤ) → to_u16 x < 65536
to_u16-lt (pos n) = omega arith
to_u16-lt (negsuc n) = omega arith
