-- ===== src/Config/Tests.antt =====
-- A small configuration, read and looked up.
use chat_server.Base.{◌≡◌, refl, [], ◌∷◌, some}
use chat_server.Base.Int.{pos}
use chat_server.Base.Text.{bytes}
use chat_server.Samples.{Doc, Docs, sample_json}
use chat_server.Config.{ConfigMap, config_value, load, load_sections, load_keys}
use chat_server.Config.Lookup.{entry_text, load-config_value}

-- `{"SelfServer": {"Name": "a", "Port": "8090"}, "Version": 1}`
abbrev sample_root : Doc
sample_root = Doc.obj (
    Docs.cons (bytes "SelfServer")
      (Doc.obj (
        Docs.cons (bytes "Name") (Doc.text (bytes "a"))
          (Docs.cons (bytes "Port") (Doc.text (bytes "8090")) Docs.nil)))
      (Docs.cons (bytes "Version") (Doc.num (pos 1)) Docs.nil))

abbrev sample_config : ConfigMap
sample_config =
    (bytes "SelfServer", (bytes "Name", bytes "a") ∷ (bytes "Port", bytes "8090") ∷ []) ∷ []

sample_loads : load (sample_json sample_root) (some []) ≡ some sample_config
unfolding load load_sections load_keys
sample_loads = refl

load-config_value_example :
    config_value (bytes "SelfServer") (bytes "Port") sample_config
    ≡ entry_text (sample_json sample_root) sample_root (bytes "SelfServer") (bytes "Port")
load-config_value_example =
    load-config_value (sample_json sample_root) [] sample_root sample_config (bytes "SelfServer")
      (bytes "Port") refl sample_loads
