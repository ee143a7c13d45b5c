-- ===== src/Node/Listen.antt =====
-- src/app/ChatServer.cpp and src/net/CServer.cpp: the addresses that a node listens on.
use chat_server.Base.{ℕ, ◌%◌, ◌^◌, ◌<◌, ◌≡◌, ap, ◌∙◌, ◌++◌, Option, some, arith}
use chat_server.Base.Int.{ℤ, pos, short_bits, short_of_bits, short_bits-short_of_bits}
use chat_server.Base.Text.{Str, bytes}
use chat_server.Base.Decimal.{atoi, atoi-to_string, to_string}
use chat_server.Json.{Json, Reads}
use chat_server.Config.{ConfigMap, config_value, load, ◌>>=◌}
use chat_server.Config.Lookup.{entry_text, load-config_value}

-- The parameter `short port` of CServer, for an `int` argument.
abbrev pub server_port : ℤ → ℤ
server_port n = short_of_bits (short_bits n)

-- The `unsigned short` that the acceptor's endpoint makes of `_port`.
abbrev pub endpoint_port : ℤ → ℕ
endpoint_port = short_bits

-- The port of the sessions; `none` is undefined behaviour.
unfoldable pub listen_port : ConfigMap → Option ℕ
listen_port cfg = atoi (config_value (bytes "SelfServer") (bytes "Port") cfg) >>= λ n.
    some (endpoint_port (server_port n))

-- The address of the calls between nodes.
abbrev pub server_address : ConfigMap → Str
server_address cfg =
    config_value (bytes "SelfServer") (bytes "Host") cfg
    ++ bytes ":"
    ++ config_value (bytes "SelfServer") (bytes "RPCPort") cfg

listen_port-narrows :
    (cfg : ConfigMap) (n : ℕ)
    → n < 2 ^ 31
    → config_value (bytes "SelfServer") (bytes "Port") cfg ≡ to_string (pos n)
    → listen_port cfg ≡ some (n % 2 ^ 16)
unfolding listen_port
listen_port-narrows cfg n h e =
    rw (e, atoi-to_string (pos n) h) (ap some (short_bits-short_of_bits (n % 2 ^ 16) (omega arith)))

module _ {V : Type 0} (J : Json V) where
  -- Let a node load its configuration from a JSON text in which the port of SelfServer is the
  -- decimal text of an `int` that is not negative. Then the acceptor listens on that port modulo
  -- 2 ^ 16: on the port of the file if it is a port, although CServer keeps it in a `short`.
  pub load-listen_port :
      (text : Str) (root : V) (cfg : ConfigMap) (n : ℕ)
      → n < 2 ^ 31
      → Reads J text root
      → load J (some text) ≡ some cfg
      → entry_text J root (bytes "SelfServer") (bytes "Port") ≡ to_string (pos n)
      → listen_port cfg ≡ some (n % 2 ^ 16)
  load-listen_port text root cfg n h reads loads port =
      listen_port-narrows cfg n h
        (load-config_value J text root cfg (bytes "SelfServer") (bytes "Port") reads loads ∙ port)
