-- ===== src/Json.antt =====
-- What the program relies on of JsonCpp, which is not part of the repository: an interface over
-- an abstract type of values. `none` is an exception of the library (`Json::LogicError`).
-- A `Json::Value` that the code builds by `v["key"] = x` is a dictionary, which `object` closes.
use chat_server.Base.{◌≡◌, Bool, true, String, Option, none, some, List}
use chat_server.Base.Int.{ℤ}
use chat_server.Base.Text.{Str, bytes, str_key}
use chat_server.Base.Dict.{Dict, find, assign}

pub record Json (V : Type 0) : Type 0 where
  -- `reader.parse(text, root)`: its result, and `root` afterwards.
  pub parse : Str → Bool × V
  -- `root["key"]`, which throws on a value that is neither an object nor null.
  pub get : V → Str → Option V
  pub is_member : V → Str → Option Bool
  pub as_int : V → Option ℤ
  pub as_string : V → Option Str
  pub is_int : V → Bool
  pub is_object : V → Bool
  -- `getMemberNames`, which throws on a value that is neither an object nor null.
  pub member_names : V → Option (List Str)
  pub is_null : V → Bool
  pub is_empty : V → Bool
  -- The values that a range `for` runs over.
  pub elements : V → List V
  pub null : V
  pub of_int : ℤ → V
  pub of_string : Str → V
  pub object : Dict Str V → V
  pub array : List V → V
  pub to_styled_string : V → Str
  -- `Json::FastWriter`
  pub write : V → Str

-- The members of an object under construction.
abbrev pub Members : Type 0 → Type 0
Members V = Dict Str V

-- `v["key"] = x` with a literal key.
abbrev pub put {ℓ} : {V : Type ℓ} → String → V → Dict Str V → Dict Str V
put k x v = assign (bytes k) x v

abbrev pub or_null : {V : Type 0} → Json V → Option V → V
or_null J o = elim o [ some v ↦ v | _ ↦ J.null ]

-- The documented behaviour that theorems use: an object gives its members back, and numbers and
-- texts convert back.
pub record JsonLaws {V : Type 0} (J : Json V) : Type 0 where
  pub get-object : (m : Dict Str V) (k : Str) → J.get (J.object m) k ≡ some (or_null J (find k m))
  pub as_int-of_int : (z : ℤ) → J.as_int (J.of_int z) ≡ some z
  pub as_string-of_string : (s : Str) → J.as_string (J.of_string s) ≡ some s

-- The reader reads this text as this value, such as one that a writer wrote before.
abbrev pub Reads : {V : Type 0} → Json V → Str → V → Type 0
Reads {V} J text v = ◌≡◌ {A = Bool × V} (J.parse text) (true, v)

infixl 5 ◌>>=◌
abbrev ◌>>=◌ {ℓ κ} : {A : Type ℓ} {B : Type κ} → Option A → (A → Option B) → Option B
none >>= f = none
some a >>= f = f a

-- `root["key"].asInt()` and `root["key"].asString()`.
module _ {V : Type 0} (J : Json V) where
  abbrev pub int_member : V → String → Option ℤ
  int_member v k = J.get v (bytes k) >>= J.as_int

  abbrev pub text_member : V → String → Option Str
  text_member v k = J.get v (bytes k) >>= J.as_string
