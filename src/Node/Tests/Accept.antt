-- ===== src/Node/Tests/Accept.antt =====
-- Three accepts, of which the second fails.
use chat_server.Base.{◌%◌, ◌≡◌, Bool, true, false, List, [], ◌∷◌, some, arith}
use chat_server.Base.Text.{Str, bytes, str_key}
use chat_server.Base.Dict.{find}
use chat_server.Frame.{Outcome}
use chat_server.IoPool.{io_service_pool, get_io_service}
use chat_server.Samples.{sample_world}
use chat_server.Node.Accept.{CServer, IoContext, new_server, serve, serve-accepts}

abbrev completions : List (Str × Bool)
completions = (bytes "a", false) ∷ (bytes "b", true) ∷ (bytes "a", false) ∷ []

serve-accepts_example :
    let done = serve completions (new_server (io_service_pool 2)) sample_world in
    ((server : CServer) × (done.0 ≡ Outcome.ok server)
      × (server.waiting ≡ (3, IoContext.own) ∷ [])
      × ((get_io_service server.io_services).0 ≡ 4 % 2))
    × (find (bytes "a") done.1.server_sessions ≡ some 2)
serve-accepts_example = serve-accepts (bytes "a") completions 2 sample_world (omega arith)
