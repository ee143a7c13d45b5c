-- ===== src/MySqlPool.antt =====
-- src/infra/mysql/MySqlPool.cpp: the pool of database connections. Taking, giving back and closing
-- are those of Pool; its check looks at when a connection was used last.
pub mod Fresh
pub mod Start
pub mod Steps
pub mod Users
mod Tests
use chat_server.Base.{
  ℕ, zero, suc, ◌+◌, Bool, true, false, List, [], ◌∷◌, ◌++◌, map, length, leb, Option, none, some,
  if◌then◌else◌,
}
use chat_server.Pool.{Pool, Kept, reconnect_loop}

pub record SqlConnection (C : Type 0) : Type 0 where
  pub con : C
  -- In seconds.
  pub last_oper_time : ℕ

module _ {C : Type 0} where
  -- `_pool.push`
  abbrev push :
      SqlConnection C → List (SqlConnection C) → Kept (SqlConnection C) → Kept (SqlConnection C)
  push c rest k = record k { pool = record k.pool { connections = rest ++ c ∷ [] } }

  -- One turn of the first loop of `checkConnection`, with whether a connection answers a query. A
  -- connection that does not answer is not given back. `none` leaves the loop.
  pub check_connection_one :
      (C → Bool) → ℕ → Kept (SqlConnection C) → Option (Kept (SqlConnection C))
  check_connection_one answers timestamp k = elim k.pool.connections [
    | [] ↦ none
    | c ∷ rest ↦ some (
        if leb (c.last_oper_time + 5) timestamp
        then (if answers c.con
            then push (record c { last_oper_time = timestamp }) rest k
            else record {
              pool = record k.pool { connections = rest };
              fail_count = k.fail_count + 1;
            })
        else push c rest k)
  ]

  -- The loop, over the number of connections that it found at its start.
  pub check_connection_loop : ℕ → (C → Bool) → ℕ → Kept (SqlConnection C) → Kept (SqlConnection C)
  unfolding check_connection_one
  check_connection_loop zero answers timestamp k = k
  check_connection_loop (suc n) answers timestamp k =
      elim (check_connection_one answers timestamp k) [
        | none ↦ k
        | some k' ↦ check_connection_loop n answers timestamp k'
      ]

  -- `reconnect`, from the result of connecting.
  abbrev pub reconnected : ℕ → Option C → Option (SqlConnection C)
  reconnected timestamp none = none
  reconnected timestamp (some c) = some (record { con = c; last_oper_time = timestamp })

  -- `checkConnection`, when no other thread uses the pool meanwhile, with the results of the
  -- attempts to connect; a missing one is a failure. Its second loop is that of the Redis pool.
  pub check_connection :
      (C → Bool) → ℕ → List (Option C) → Kept (SqlConnection C) → Kept (SqlConnection C)
  unfolding check_connection_loop
  check_connection answers timestamp tries k =
      let k' = check_connection_loop (length k.pool.connections) answers timestamp k in
      reconnect_loop k'.fail_count (map (reconnected timestamp) tries) k'
