-- ===== src/Node/Tests.antt =====
-- A node with two connections, of which one is logged in and the other is gone.
mod Safe
mod Delivery
mod Across
mod Accept
use chat_server.Base.{◌%◌, ◌^◌, ◌≡◌, refl, ◌∷◌, [], List, some, arith}
use chat_server.Base.Int.{pos}
use chat_server.Base.Text.{bytes}
use chat_server.Frame.{Outcome}
use chat_server.Samples.{sample_services, sample-HashLaws, sample_world}
use chat_server.World.{◌>>◌}
use chat_server.Logic.Presence.{counter}
use chat_server.Node.{Event, start_node, life}
use chat_server.Node.Online.{nobody, after_all}
use chat_server.Node.Tracks.{AllFit}
use chat_server.Samples.{Doc, Docs, sample_json}
use chat_server.Base.Decimal.{to_string}
use chat_server.Config.{ConfigMap, config_value, load, load_sections, load_keys}
use chat_server.Node.Listen.{server_address, listen_port, load-listen_port}
use chat_server.Base.{Bool, true, false}
use chat_server.Base.Text.{Str, str_key}
use chat_server.Base.Dict.{assign}
use chat_server.Samples.{Outside}
use chat_server.Node.Count.{life-count}

abbrev sample_life : List Event
sample_life =
    Event.accepts 3 (bytes "a")
    ∷ Event.logs_in 3 (pos 7)
    ∷ Event.accepts 4 (bytes "b")
    ∷ Event.logs_in 4 (pos 8)
    ∷ Event.closes 3
    ∷ []

life-count_example :
    let r = (start_node sample_services >> life sample_services sample_life) sample_world in
    (r.0 ≡ Outcome.ok tt)
    × (counter sample_services r.1 ≡ some (pos 1))
    × AllFit (after_all sample_life nobody) r.1.sessions
life-count_example =
    life-count sample_services sample-HashLaws sample_life sample_world (
      refl,
      ((refl, refl, refl, omega arith), (refl, ((refl, refl, refl, omega arith), (refl, tt)))),
    )

-- `{"SelfServer": {"Host": "h", "Port": "65616", "RPCPort": "50055"}}`
abbrev port_root : Doc
port_root = Doc.obj (
    Docs.cons (bytes "SelfServer")
      (Doc.obj (
        Docs.cons (bytes "Host") (Doc.text (bytes "h")) (
          Docs.cons (bytes "Port") (Doc.text (bytes "65616"))
            (Docs.cons (bytes "RPCPort") (Doc.text (bytes "50055")) Docs.nil))))
      Docs.nil)

abbrev port_config : ConfigMap
port_config =
    (
      bytes "SelfServer",
      (bytes "Host", bytes "h")
          ∷ (bytes "Port", bytes "65616")
          ∷ (bytes "RPCPort", bytes "50055")
          ∷ [],
    )
    ∷ []

port_loads : load (sample_json port_root) (some []) ≡ some port_config
unfolding load load_sections load_keys
port_loads = refl

rpc_address : server_address port_config ≡ bytes "h:50055"
unfolding config_value
rpc_address = refl

load-listen_port_example : listen_port port_config ≡ some (65616 % 2 ^ 16)
unfolding to_string
load-listen_port_example =
    load-listen_port (sample_json port_root) [] port_root port_config 65616 (omega arith) refl
      port_loads refl

-- hDel of a field that is written as empty.
abbrev sample_h_del : Str → Str → Outside → Bool × Outside
sample_h_del k f s = (true, record s { hash = assign f [] s.hash })
