-- ===== src/Utils.antt =====
-- src/common/utils.cpp: `toHex`, `fromHex`, `urlEncode` and `urlDecode` on bytes, which are numbers
-- below 256. (`Defer` runs its function at the end of a scope; each model writes that call out.)
pub mod Url
mod Tests
use Prim.Native.Nat.{bit_or}
use chat_server.Base.{
  ℕ, ◌+◌, ◌-◌, ◌*◌, ◌/◌, ◌%◌, Bool, ◌&&◌, ◌||◌, [], ◌∷◌, ◌++◌, leb, ltb, ◌==◌, if◌then◌else◌,
}
use chat_server.Base.Text.{Str}

-- `unsigned char` arithmetic wraps at 256.
pub to_hex : ℕ → ℕ
to_hex x = if ltb 9 x then (x + 55) % 256 else (x + 48) % 256

pub from_hex : ℕ → ℕ
from_hex x =
    if leb b'A' x && leb x b'Z'
    then x - b'A' + 10
    else if leb b'a' x && leb x b'z'
    then x - b'a' + 10
    else if leb b'0' x && leb x b'9'
    then x - b'0'
    else 0

-- `static_cast<unsigned char>((high << 4) | low)`
byte_of_hex : ℕ → ℕ → ℕ
unfolding from_hex
byte_of_hex h l = bit_or (from_hex h * 16) (from_hex l) % 256

-- `std::isalnum` in the C locale.
is_alnum : ℕ → Bool
is_alnum c = leb b'0' c && leb c b'9' || leb b'A' c && leb c b'Z' || leb b'a' c && leb c b'z'

is_unreserved : ℕ → Bool
unfolding is_alnum
is_unreserved c = is_alnum c || c == b'-' || c == b'_' || c == b'.' || c == b'~'

-- What the loop of `urlEncode` appends for one character.
encode_char : ℕ → Str
encode_char c =
    if is_unreserved c
    then c ∷ []
    else if c == b' '
    then b'%' ∷ b'2' ∷ b'0' ∷ []
    else b'%' ∷ to_hex (c / 16) ∷ to_hex (c % 16) ∷ []

pub url_encode : Str → Str
url_encode [] = []
url_encode (c ∷ s) = encode_char c ++ url_encode s

-- The loop of `urlDecode`: two characters are left behind a `%` exactly when `i + 2 < length`.
pub url_decode : Str → Str
unfolding byte_of_hex
url_decode [] = []
url_decode (c ∷ []) = (if c == b'+' then b' ' else c) ∷ []
url_decode (c ∷ d ∷ []) = (if c == b'+' then b' ' else c) ∷ (if d == b'+' then b' ' else d) ∷ []
url_decode (c ∷ h ∷ l ∷ s) =
    let escaped = byte_of_hex h l ∷ url_decode s in
    let plain = url_decode (h ∷ l ∷ s) in
    if c == b'+' then b' ' ∷ plain else if c == b'%' then escaped else c ∷ plain
