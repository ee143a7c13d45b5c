-- ===== src/Config/Load.antt =====
-- src/infra/config/ConfigMgr.cpp: the sections and keys that the constructor has read.
use mathlib.Core.Option.{some-injective}
use chat_server.Base.{
  ◌≡◌, refl, sym, ap, ◌∙◌, Bool, true, false, ◌||◌, List, [], ◌∷◌, Option, none, some,
  if◌then◌else◌, Bool-cases, inl, inr,
}
use chat_server.Base.Text.{Str, str_eq, str_eq_iff, str_key}
use chat_server.Base.Dict.{find, assign, find-assign}
use chat_server.Json.{Json}
use chat_server.Config.{
  SectionInfo, ConfigMap, ◌>>=◌, load_keys, load_section, load_one, load_sections,
}

abbrev pub has : Str → List Str → Bool
has k [] = false
has k (j ∷ js) = str_eq j k || has k js

pub >>=-eq-some :
    {A B : Type 0} (m : Option A) (f : A → Option B) {b : B}
    → (m >>= f) ≡ some b
    → (a : A) × (m ≡ some a) × (f a ≡ some b)
>>=-eq-some none f h = cc
>>=-eq-some (some a) f h = (a, refl, h)

if_same : {A : Type 0} (b : Bool) (a : A) → (if b then a else a) ≡ a
if_same true a = refl
if_same false a = refl

module _ {V : Type 0} (J : Json V) where
  abbrev pub text_of : V → Str → Option Str
  text_of v key = J.get v key >>= J.as_string

  pub load_keys-find :
      (v : V) (keys : List Str) (info info' : SectionInfo) (k : Str)
      → load_keys J v keys info ≡ some info'
      → find k info' ≡ (if has k keys then text_of v k else find k info)
  unfolding load_keys
  load_keys-find v [] info info' k h = ap (find k) (sym (some-injective _ _ h))
  load_keys-find v (key ∷ rest) info info' k h =
      let (value, hv, h1) = >>=-eq-some (J.get v key) _ h in
      let (text, ht, h2) = >>=-eq-some (J.as_string value) _ h1 in
      let found =
        load_keys-find v rest (assign key text info) info' k h2
        ∙ ap (λ o. if has k rest then text_of v k else o) (find-assign key k text info) in
      elim (Bool-cases (str_eq key k)) [
        | inl e ↦
            let same : text_of v k ≡ some text = rw (← (str_eq_iff key k).0 e, hv) ht in
            found ∙ rw (e, same) (if_same (has k rest) (some text))
        | inr e ↦ found ∙ rw e refl
      ]

  -- The section of a name, where its value is an object.
  abbrev pub section_of : V → Str → Option SectionInfo
  section_of root s = J.get root s >>= λ v. if J.is_object v then load_section J v else none

  abbrev or_else : Option SectionInfo → Option SectionInfo → Option SectionInfo
  or_else (some info) o = some info
  or_else none o = o

  or_else_same : (a o : Option SectionInfo) → or_else a (or_else a o) ≡ or_else a o
  or_else_same none o = refl
  or_else_same (some info) o = refl

  merge :
      (b c : Bool) (a o : Option SectionInfo)
      → let one = if c then or_else a o else o in
        (if b then or_else a one else one) ≡ (if c || b then or_else a o else o)
  merge true true a o = or_else_same a o
  merge true false a o = refl
  merge false true a o = refl
  merge false false a o = refl

  load_if-find :
      (b : Bool) (loaded : Option SectionInfo) (name : Str) (config config' : ConfigMap) (s : Str)
      → (if b then (loaded >>= λ info. some (assign name info config)) else some config)
        ≡ some config'
      → find s config' ≡ (
          if str_eq name s
          then or_else (if b then loaded else none) (find s config)
          else find s config)
  load_if-find true none name config config' s h = cc
  load_if-find true (some info) name config config' s h =
      ap (find s) (sym (some-injective _ _ h)) ∙ find-assign name s info config
  load_if-find false loaded name config config' s h =
      ap (find s) (sym (some-injective _ _ h)) ∙ sym (if_same (str_eq name s) (find s config))

  load_one-find :
      (root v : V) (name : Str) (config config' : ConfigMap) (s : Str)
      → J.get root name ≡ some v
      → load_one J name v config ≡ some config'
      → find s config'
        ≡ (if str_eq name s then or_else (section_of root s) (find s config) else find s config)
  load_one-find root v name config config' s g h =
      let found = load_if-find (J.is_object v) (load_section J v) name config config' s h in
      elim (Bool-cases (str_eq name s)) [
        | inl e ↦
            let g' : J.get root s ≡ some v = rw (← (str_eq_iff name s).0 e) g in
            found ∙ rw (e, section_of, g') refl
        | inr e ↦ found ∙ rw e refl
      ]

  pub load_sections-find :
      (root : V) (names : List Str) (config config' : ConfigMap) (s : Str)
      → load_sections J root names config ≡ some config'
      → find s config'
        ≡ (if has s names then or_else (section_of root s) (find s config) else find s config)
  unfolding load_sections
  load_sections-find root [] config config' s h = ap (find s) (sym (some-injective _ _ h))
  load_sections-find root (name ∷ rest) config config' s h =
      let (v, hv, h1) = >>=-eq-some (J.get root name) _ h in
      let (c1, h2, h3) = >>=-eq-some (load_one J name v config) _ h1 in
      let one = load_one-find root v name config c1 s hv h2 in
      load_sections-find root rest c1 config' s h3
      ∙ rw one (merge (has s rest) (str_eq name s) (section_of root s) (find s config))

  -- A section whose value is an object was read.
  load_if-loaded :
      (b : Bool) (loaded : Option SectionInfo) (name : Str) (config config' : ConfigMap)
      → (if b then (loaded >>= λ info. some (assign name info config)) else some config)
        ≡ some config'
      → b ≡ true
      → (info : SectionInfo) × (loaded ≡ some info)
  load_if-loaded true none name config config' h e = cc
  load_if-loaded true (some info) name config config' h e = (info, refl)
  load_if-loaded false loaded name config config' h e = cc

  pub load_sections-loaded :
      (root : V) (names : List Str) (config config' : ConfigMap) (s : Str) (v : V)
      → load_sections J root names config ≡ some config'
      → has s names ≡ true
      → J.get root s ≡ some v
      → J.is_object v ≡ true
      → (info : SectionInfo) × (load_section J v ≡ some info)
  unfolding load_sections
  load_sections-loaded root [] config config' s v h k g o = cc
  load_sections-loaded root (name ∷ rest) config config' s v h k g o =
      let (w, hw, h1) = >>=-eq-some (J.get root name) _ h in
      let (c1, h2, h3) = >>=-eq-some (load_one J name w config) _ h1 in
      elim (Bool-cases (str_eq name s)) [
        | inl e ↦
            let same : w ≡ v = some-injective _ _ (sym (rw (← (str_eq_iff name s).0 e) hw) ∙ g) in
            load_if-loaded (J.is_object v) (load_section J v) name config c1 (rw (← same) h2) o
        | inr e ↦ load_sections-loaded root rest c1 config' s v h3 (rw e at k) g o
      ]
