-- ===== src/MySqlPool/Tests.antt =====
-- A run of a check of the database connections.
use chat_server.Base.{ℕ, false, [], ◌∷◌, some, ltb, All}
use chat_server.Pool.{Kept}
use chat_server.MySqlPool.{SqlConnection, check_connection}
use chat_server.MySqlPool.Fresh.{IsFresh, check_connection-IsFresh}

-- Two connections, the older of which does not answer.
abbrev two_connections : Kept (SqlConnection ℕ)
two_connections = record {
  pool = record {
    connections =
        record { con = 1; last_oper_time = 0 } ∷ record { con = 2; last_oper_time = 98 } ∷ [];
    b_stop = false;
  };
  fail_count = 0;
}

check_connection-IsFresh_example :
    All
      (IsFresh 100)
      (check_connection (λ c. ltb 1 c) 100 (some 3 ∷ []) two_connections).pool.connections
check_connection-IsFresh_example =
    check_connection-IsFresh (λ c. ltb 1 c) 100 (some 3 ∷ []) two_connections
