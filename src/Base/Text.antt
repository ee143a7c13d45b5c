-- ===== src/Base/Text.antt =====
-- `std::string` as a list of bytes.
use Prim.Native.Nat.{ℕ}
use Prim.Native.Char.{code}
use Prim.Native.String.{String}
use mathlib.Core.Path.{◌≡◌}
use mathlib.Core.Logic.{◌↔◌}
use mathlib.Core.Bool.{Bool, true, false, ◌&&◌}
use mathlib.Core.List.{List, [], ◌∷◌, ◌++◌}
use native.Mathlib.Omega.{arith}
use chat_server.Base.Tests.{◌==◌, if◌then◌else◌}
use chat_server.Base.Dict.{Eq}

abbrev pub Str : Type 0
Str = List ℕ

-- The bytes of an ASCII literal of the source.
abbrev pub bytes : String → Str
bytes String.[] = []
bytes (String.◌∷◌ c s) = code c ∷ bytes s

abbrev pub str_eq : Str → Str → Bool
str_eq [] [] = true
str_eq [] (y ∷ ys) = false
str_eq (x ∷ xs) [] = false
str_eq (x ∷ xs) (y ∷ ys) = x == y && str_eq xs ys

pub str_eq_iff : (a b : Str) → (str_eq a b ≡ true) ↔ (a ≡ b)
str_eq_iff [] [] = ground arith
str_eq_iff [] (y ∷ ys) = ground arith
str_eq_iff (x ∷ xs) [] = ground arith
str_eq_iff (x ∷ xs) (y ∷ ys) = ground (arith, str_eq_iff xs ys)

instance abbrev pub str_key : Eq Str
str_key = record { beq = str_eq; beq_iff = str_eq_iff }

-- `s.empty()`
abbrev pub is_empty {ℓ} : {A : Type ℓ} → List A → Bool
is_empty [] = true
is_empty (x ∷ xs) = false

-- Two texts behind one prefix are equal only if the rests are.
pub append-cancel : (p a b : Str) → p ++ a ≡ p ++ b → a ≡ b
append-cancel [] a b h = h
append-cancel (x ∷ p) a b h = append-cancel p a b (cc)

-- What `s.c_str()` passes on: the bytes up to the first null byte.
abbrev pub c_str : Str → Str
c_str [] = []
c_str (b ∷ s) = let rest = c_str s in if b == 0 then [] else b ∷ rest
