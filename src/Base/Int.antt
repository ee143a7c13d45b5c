-- ===== src/Base/Int.antt =====
-- C++ `int` and `short` values as integers over the native numbers; `negsuc n` is -(n + 1).
use Prim.Native.Nat.{ℕ, ◌-◌, ◌%◌, ◌^◌, ◌<◌}
use mathlib.Core.Path.{◌≡◌}
use mathlib.Core.Logic.{◌↔◌}
use mathlib.Core.Bool.{Bool, true, false}
use native.Mathlib.Omega.{arith}
use chat_server.Base.Tests.{ltb, ◌==◌, if◌then◌else◌}

pub data ℤ : Type 0 where
  pos : ℕ → ℤ
  negsuc : ℕ → ℤ

abbrev pub int_eq : ℤ → ℤ → Bool
int_eq (pos m) (pos n) = m == n
int_eq (negsuc m) (negsuc n) = m == n
int_eq _ _ = false

pub int_eq_iff : (a b : ℤ) → (int_eq a b ≡ true) ↔ (a ≡ b)
int_eq_iff (pos m) (pos n) = ground arith
int_eq_iff (pos m) (negsuc n) = ground arith
int_eq_iff (negsuc m) (pos n) = ground arith
int_eq_iff (negsuc m) (negsuc n) = ground arith

-- `0 < z` for a signed value.
abbrev pub is_pos : ℤ → Bool
is_pos (pos n) = ltb 0 n
is_pos (negsuc n) = false

-- `z < 0` for a signed value.
abbrev pub is_neg : ℤ → Bool
is_neg (pos n) = false
is_neg (negsuc n) = true

-- `k < z` for a signed value against a constant that is not negative.
abbrev pub gtb : ℤ → ℕ → Bool
gtb (pos n) k = ltb k n
gtb (negsuc n) k = false

-- The 16 bits of a `short`, and the `short` that 16 bits stand for.
abbrev pub short_bits : ℤ → ℕ
short_bits (pos n) = n % 2 ^ 16
short_bits (negsuc n) = 2 ^ 16 - 1 - n % 2 ^ 16

abbrev pub short_of_bits : ℕ → ℤ
short_of_bits w = if ltb w (2 ^ 15) then pos w else negsuc (2 ^ 16 - 1 - w)

-- The values a `short` can have.
abbrev pub IsShort : ℤ → Type 0
IsShort (pos n) = n < 2 ^ 15
IsShort (negsuc n) = n < 2 ^ 15

pub short_of_bits-short_bits : (z : ℤ) → IsShort z → short_of_bits (short_bits z) ≡ z
short_of_bits-short_bits (pos n) h = ground arith
short_of_bits-short_bits (negsuc n) h = ground arith

pub short_bits-short_of_bits : (w : ℕ) → w < 2 ^ 16 → short_bits (short_of_bits w) ≡ w
short_bits-short_of_bits w h = ground arith
