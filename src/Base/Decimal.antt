-- ===== src/Base/Decimal.antt =====
-- `std::to_string`, `std::stoi` and `atoi` on `int`, and that the others undo the first.
use Prim.Native.Nat.{ℕ, zero, suc, ◌+◌, ◌-◌, ◌*◌, ◌/◌, ◌%◌, ◌^◌, ◌<◌}
use mathlib.Core.Path.{◌≡◌, refl, ap, ◌∙◌}
use mathlib.Core.Bool.{Bool, true, false, ◌&&◌, ◌||◌}
use mathlib.Core.Option.{Option, none, some}
use mathlib.Core.Option
use mathlib.Core.List.{[], ◌∷◌}
use native.Mathlib.Omega.{arith}
use chat_server.Base.Tests.{ltb, leb, ◌==◌, if◌then◌else◌}
use chat_server.Base.Int.{ℤ, pos, negsuc}
use chat_server.Base.Text.{Str, is_empty}

-- The decimal digits of `n` in front of `rest`; the fuel is above `n`.
digits : ℕ → ℕ → Str → Str
digits zero n rest = rest
digits (suc f) n rest =
    let more = digits f (n / 10) ((48 + n % 10) ∷ rest) in
    if ltb n 10 then (48 + n) ∷ rest else more

unfoldable pub to_string : ℤ → Str
unfolding digits
to_string (pos n) = digits (suc n) n []
to_string (negsuc n) = b'-' ∷ digits (suc (suc n)) (suc n) []

abbrev is_digit : ℕ → Bool
is_digit c = leb 48 c && leb c 57

-- The number that the leading digits add to what was read.
read_digits : ℕ → Str → ℕ
read_digits acc [] = acc
read_digits acc (c ∷ s) =
    let more = read_digits (acc * 10 + (c - 48)) s in if is_digit c then more else acc

-- No digit at all is an `invalid_argument`.
magnitude : Str → Option ℕ
magnitude [] = none
magnitude (c ∷ s) = if is_digit c then some (read_digits 0 (c ∷ s)) else none

is_space : ℕ → Bool
is_space c = c == 32 || leb 9 c && leb c 13

skip_space : Str → Str
skip_space [] = []
skip_space (c ∷ s) = let rest = skip_space s in if is_space c then rest else c ∷ s

-- The values of `int`; outside them `stoi` throws `out_of_range`.
abbrev pub IsInt : ℤ → Type 0
IsInt (pos n) = n < 2 ^ 31
IsInt (negsuc n) = n < 2 ^ 31

positive : ℕ → Option ℤ
positive n = if ltb n (2 ^ 31) then some (pos n) else none

negative : ℕ → Option ℤ
negative zero = some (pos 0)
negative (suc n) = if ltb n (2 ^ 31) then some (negsuc n) else none

signed : Str → Option ℤ
signed [] = none
signed (c ∷ s) =
    if c == b'-'
    then Option.bind (magnitude s) negative
    else if c == b'+'
    then Option.bind (magnitude s) positive
    else Option.bind (magnitude (c ∷ s)) positive

-- `none` is an exception.
unfoldable pub stoi : Str → Option ℤ
unfolding signed magnitude read_digits skip_space is_space positive negative Option.bind
stoi s = signed (skip_space s)

number_or_zero : (ℕ → Option ℤ) → Option ℕ → Option ℤ
number_or_zero value none = some (pos 0)
number_or_zero value (some n) = value n

signed_or_zero : Str → Option ℤ
signed_or_zero [] = some (pos 0)
signed_or_zero (c ∷ s) =
    if c == b'-'
    then number_or_zero negative (magnitude s)
    else if c == b'+'
    then number_or_zero positive (magnitude s)
    else number_or_zero positive (magnitude (c ∷ s))

-- 0 where there is no number; `none`, outside the values of `int`, is undefined behaviour.
unfoldable pub atoi : Str → Option ℤ
unfolding signed_or_zero number_or_zero magnitude read_digits skip_space is_space positive negative
atoi s = signed_or_zero (skip_space s)

read_digits-digits :
    (f n : ℕ) (rest : Str) → n < f → read_digits 0 (digits f n rest) ≡ read_digits n rest
unfolding digits
read_digits-digits zero n rest h = elim h [ ]
read_digits-digits (suc f) n rest h =
    ground (arith, read_digits-digits f (n / 10) ((48 + n % 10) ∷ rest), small, big)
  where
    small : ltb n 10 ≡ true → read_digits 0 ((48 + n) ∷ rest) ≡ read_digits n rest
    small = unfold read_digits in ground arith

    big : read_digits (n / 10) ((48 + n % 10) ∷ rest) ≡ read_digits n rest
    big = unfold read_digits in ground arith

starts_with_digit : Str → Bool
starts_with_digit [] = false
starts_with_digit (c ∷ s) = is_digit c

digits-starts_with_digit :
    (f n : ℕ) (rest : Str) → n < f → starts_with_digit (digits f n rest) ≡ true
unfolding digits
digits-starts_with_digit zero n rest h = elim h [ ]
digits-starts_with_digit (suc f) n rest h =
    ground (arith, digits-starts_with_digit f (n / 10) ((48 + n % 10) ∷ rest), small)
  where
    small : ltb n 10 ≡ true → starts_with_digit ((48 + n) ∷ rest) ≡ true
    small = unfold starts_with_digit in ground arith

magnitude-digits : (s : Str) → starts_with_digit s ≡ true → magnitude s ≡ some (read_digits 0 s)
unfolding starts_with_digit magnitude
magnitude-digits [] h = cc
magnitude-digits (c ∷ s) h = ground arith

unsigned_digits : (s : Str) → starts_with_digit s ≡ true → stoi s ≡ positive (read_digits 0 s)
unfolding stoi
unsigned_digits [] h = unfold starts_with_digit in cc
unsigned_digits (c ∷ s) h = unfold starts_with_digit in ground arith

negated_digits :
    (s : Str) → starts_with_digit s ≡ true → stoi (b'-' ∷ s) ≡ negative (read_digits 0 s)
unfolding stoi
negated_digits s h = rw (magnitude-digits s h)

read-digits : (f n : ℕ) → n < f → read_digits 0 (digits f n []) ≡ n
read-digits f n h = read_digits-digits f n [] h ∙ read_nothing n
  where
    read_nothing : (k : ℕ) → read_digits k [] ≡ k
    read_nothing k = unfold read_digits in refl

stoi-digits : (f n : ℕ) → n < f → n < 2 ^ 31 → stoi (digits f n []) ≡ some (pos n)
stoi-digits f n h b =
    rw (unsigned_digits (digits f n []) (digits-starts_with_digit f n [] h), read-digits f n h)
      (unfold positive in ground arith)

stoi-negated :
    (f n : ℕ) → suc n < f → n < 2 ^ 31 → stoi (b'-' ∷ digits f (suc n) []) ≡ some (negsuc n)
stoi-negated f n h b =
    rw
      (
        negated_digits (digits f (suc n) []) (digits-starts_with_digit f (suc n) [] h),
        read-digits f (suc n) h,
      )
      (unfold negative in ground arith)

-- Every `int` survives printing and reading.
pub stoi-to_string : (z : ℤ) → IsInt z → stoi (to_string z) ≡ some z
unfolding to_string
stoi-to_string (pos n) h = stoi-digits (suc n) n (omega arith) h
stoi-to_string (negsuc n) h = stoi-negated (suc (suc n)) n (omega arith) h

-- So two `int`s are printed alike only if they are one.
pub to_string-injective : (a b : ℤ) → IsInt a → IsInt b → to_string a ≡ to_string b → a ≡ b
to_string-injective a b ha hb e = cc (ap stoi e, stoi-to_string a ha, stoi-to_string b hb)

pub to_string-nonempty : (z : ℤ) → IsInt z → is_empty (to_string z) ≡ false
to_string-nonempty z h = go (to_string z) (stoi-to_string z h)
  where
    go : (s : Str) → stoi s ≡ some z → is_empty s ≡ false
    go [] e = unfold stoi in cc
    go (c ∷ s) e = refl

bind-number_or_zero :
    (m : Option ℕ) (value : ℕ → Option ℤ) (z : ℤ)
    → Option.bind m value ≡ some z
    → number_or_zero value m ≡ some z
unfolding Option.bind number_or_zero
bind-number_or_zero none value z h = cc
bind-number_or_zero (some n) value z h = h

signed-or_zero : (s : Str) (z : ℤ) → signed s ≡ some z → signed_or_zero s ≡ some z
unfolding signed signed_or_zero
signed-or_zero [] z h = cc
signed-or_zero (c ∷ s) z h = ground (
  arith,
  bind-number_or_zero (magnitude s) negative z,
  bind-number_or_zero (magnitude s) positive z,
  bind-number_or_zero (magnitude (c ∷ s)) positive z,
)

-- `atoi` reads what `stoi` does.
pub atoi-to_string : (z : ℤ) → IsInt z → atoi (to_string z) ≡ some z
unfolding atoi stoi
atoi-to_string z h = signed-or_zero (skip_space (to_string z)) z (stoi-to_string z h)
