-- ===== src/Config.antt =====
-- src/infra/config/ConfigMgr.cpp: the configuration, read once from `config.json` into a map of
-- sections. `std::map` is a dictionary.
pub mod Load
pub mod Lookup
mod Tests
use chat_server.Base.{true, false, List, [], ◌∷◌, Option, none, some, if◌then◌else◌}
use chat_server.Base.Text.{Str, str_key}
use chat_server.Base.Dict.{Dict, find, assign}
use chat_server.Json.{Json}

-- `_section_datas`
abbrev pub SectionInfo : Type 0
SectionInfo = Dict Str Str

-- `_config_map`
abbrev pub ConfigMap : Type 0
ConfigMap = Dict Str SectionInfo

-- `SectionInfo::operator[]`
unfoldable pub section_data : Str → SectionInfo → Str
section_data key info = elim (find key info) [ none ↦ [] | some value ↦ value ]

-- `ConfigMgr::operator[]`
unfoldable pub config_section : Str → ConfigMap → SectionInfo
config_section section config = elim (find section config) [ none ↦ [] | some info ↦ info ]

-- `cfg[section][key]`
unfoldable pub config_value : Str → Str → ConfigMap → Str
unfolding section_data config_section
config_value section key config = section_data key (config_section section config)

infixl 5 ◌>>=◌
abbrev pub ◌>>=◌ : {A B : Type 0} → Option A → (A → Option B) → Option B
none >>= f = none
some a >>= f = f a

-- The constructor; `none` is an exception of JsonCpp, which nothing catches.
module _ {V : Type 0} (J : Json V) where
  -- The loop over the keys of a section.
  unfoldable pub load_keys : V → List Str → SectionInfo → Option SectionInfo
  load_keys section_value [] info = some info
  load_keys section_value (key ∷ rest) info = do
    value ← J.get section_value key
    text ← J.as_string value
    load_keys section_value rest (assign key text info)

  abbrev pub load_section : V → Option SectionInfo
  load_section section_value = do
    keys ← J.member_names section_value
    load_keys section_value keys []

  -- One turn of the loop over the sections: a value that is no object is left out.
  abbrev pub load_one : Str → V → ConfigMap → Option ConfigMap
  load_one section_name section_value config =
      if J.is_object section_value
      then (load_section section_value >>= λ info. some (assign section_name info config))
      else some config

  unfoldable pub load_sections : V → List Str → ConfigMap → Option ConfigMap
  load_sections root [] config = some config
  load_sections root (section_name ∷ rest) config = do
    section_value ← J.get root section_name
    config' ← load_one section_name section_value config
    load_sections root rest config'

  -- The text of the file, `none` where it does not open. A file that is no JSON leaves the map empty.
  unfoldable pub load : Option Str → Option ConfigMap
  load none = some []
  load (some text) =
      let (parsed, root) = J.parse text in
      if parsed then (J.member_names root >>= λ names. load_sections root names []) else some []
