-- ===== src/Config/Lookup.antt =====
-- src/infra/config/ConfigMgr.cpp: what the configuration says, by its file.
use chat_server.Base.{
  ◌≡◌, refl, ◌∙◌, Bool, true, false, ◌&&◌, List, [], Option, none, some, if◌then◌else◌,
  Option-cases, Bool-cases, inl, inr,
}
use chat_server.Base.Text.{Str, str_key}
use chat_server.Json.{Json, Reads}
use chat_server.Config.Load.{
  has, >>=-eq-some, text_of, section_of, load_keys-find, load_sections-find, load_sections-loaded,
}
use chat_server.Config.{
  SectionInfo, ConfigMap, ◌>>=◌, section_data, config_section, config_value, load_section,
  load_sections, load,
}

module _ {V : Type 0} (J : Json V) where
  abbrev names_of : V → List Str
  names_of v = elim (J.member_names v) [ none ↦ [] | some names ↦ names ]

  abbrev text_or_empty : Option Str → Str
  text_or_empty none = []
  text_or_empty (some text) = text

  -- `v[key].asString()` for an object with that member, and else the empty text.
  abbrev pub member_text : V → Str → Str
  member_text v key =
      if J.is_object v && has key (names_of v) then text_or_empty (text_of J v key) else []

  -- `root[section][key].asString()`, where both are there and the first is an object, and else the
  -- empty text.
  abbrev pub entry_text : V → Str → Str → Str
  entry_text root section key =
      if has section (names_of root)
      then elim (J.get root section) [ none ↦ [] | some v ↦ member_text v key ]
      else []

  data_text :
      (b : Bool) (o : Option Str)
      → ◌≡◌ {A = Str}
          (elim (if b then o else none) [ none ↦ [] | some value ↦ value ])
          (if b then text_or_empty o else [])
  data_text true none = refl
  data_text true (some x) = refl
  data_text false o = refl

  section_data-text :
      (v : V) (info : SectionInfo) (key : Str)
      → J.is_object v ≡ true
      → load_section J v ≡ some info
      → section_data key info ≡ member_text v key
  unfolding section_data
  section_data-text v info key o h =
      let (keys, hk, h1) = >>=-eq-some (J.member_names v) _ h in
      rw (section_data, load_keys-find J v keys [] info key h1, member_text, o, names_of, hk)
        (data_text (has key keys) (text_of J v key))

  section_value-text :
      (root : V) (config : ConfigMap) (names : List Str) (section key : Str)
      → J.member_names root ≡ some names
      → load_sections J root names [] ≡ some config
      → config_value section key config ≡ entry_text root section key
  unfolding config_value config_section
  section_value-text root config names section key hn h =
      let found = load_sections-find J root names [] config section h in
      elim (Bool-cases (has section names)) [
        | inr e ↦ rw (config_section, found, e, entry_text, names_of, hn, e) refl
        | inl e ↦ elim (Option-cases (J.get root section)) [
          | inl g ↦ rw (config_section, found, e, entry_text, names_of, hn, e, section_of, g) refl
          | inr (v, g) ↦ elim (Bool-cases (J.is_object v)) [
            | inl o ↦
                let (info, hi) = load_sections-loaded J root names [] config section v h e g o in
                rw (config_section, found, e, entry_text, names_of, hn, e, section_of, g, o, hi)
                  (section_data-text v info key o hi ∙ rw (member_text, o) refl)
            | inr o ↦
                rw
                  (
                    config_section, found, e, entry_text, names_of, hn, e, section_of, g,
                    member_text, o,
                  )
                  refl
          ]
        ]
      ]

  -- Let the file of the configuration hold a JSON text, and let the constructor read it without an
  -- exception. Then `cfg[section][key]` is the text that the JSON value has under these names, and
  -- the empty text where it has none or where the section is no object.
  pub load-config_value :
      (text : Str) (root : V) (config : ConfigMap) (section key : Str)
      → Reads J text root
      → load J (some text) ≡ some config
      → config_value section key config ≡ entry_text root section key
  unfolding load
  load-config_value text root config section key parses h =
      let h' : (J.member_names root >>= λ names. load_sections J root names []) ≡ some config =
        rw parses at h in
      let (names, hn, h1) = >>=-eq-some (J.member_names root) _ h' in
      section_value-text root config names section key hn h1
