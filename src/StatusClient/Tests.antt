-- ===== src/StatusClient/Tests.antt =====
-- Calls of a status server that answers, over a pool of two stubs.
use chat_server.Base.{ℕ, ◌≡◌, refl, true, false, [], ◌∷◌}
use chat_server.Base.Int.{pos}
use chat_server.Base.Text.{bytes}
use chat_server.Frame.{Outcome}
use chat_server.Pool.{Called, close, get_connection}
use chat_server.StatusClient.{StatusStub, StatusClient, status_login}

abbrev sample_stub : StatusStub ℕ ℕ
sample_stub = record {
  get_chat_server = λ c req rsp s. ((true, rsp), s);
  login = λ c req rsp s. ((true, record rsp { uid = req.uid }), s);
}

abbrev sample_client : StatusClient ℕ ℕ
sample_client = record { pool = record { connections = 1 ∷ 2 ∷ []; b_stop = false }; server = 0 }

abbrev closed_client : StatusClient ℕ ℕ
closed_client = record sample_client { pool = close sample_client.pool }

-- The login of a closed pool, and of an open one.
login_runs :
    ((status_login sample_stub (pos 7) (bytes "t") closed_client).0
      ≡ Called.returned (Outcome.ok (record { error = pos 1002; uid = pos 0; token = [] })))
    × ((status_login sample_stub (pos 7) (bytes "t") sample_client).0
        ≡ Called.returned (Outcome.ok (record { error = pos 0; uid = pos 7; token = [] })))
unfolding status_login get_connection close
login_runs = (refl, refl)
