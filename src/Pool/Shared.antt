-- ===== src/Pool/Shared.antt =====
-- src/infra/redis/RedisConPool.cpp, src/infra/mysql/MySqlPool.cpp: the pool while its check thread runs beside its users. Each act
-- is what one of them does while it holds the lock, or with a connection that it has taken.
use chat_server.Base.{ℕ, zero, suc, ◌+◌, Bool, List, [], ◌∷◌, ◌++◌, none, some, if◌then◌else◌}
use chat_server.Pool.{
  Pool, Got, Kept, get_connection, return_connection, close, get_con_non_block, destroy,
}
use chat_server.Pool.Balance.{pick, without}

-- The pool, what its users hold, the connection under the check, what was given back in vain, what
-- the check freed, what it opened anew, and what the destructor freed.
pub record Shared (C : Type 0) : Type 0 where
  pub kept : Kept C
  pub held : List C
  pub checking : List C
  pub dropped : List C
  pub freed : List C
  pub opened : List C
  pub cleared : List C

pub data Act (C : Type 0) : Type 0 where
  takes : Act C
  returns : ℕ → Act C
  closes : Act C
  -- The check takes a connection, and has its answer to the ping.
  probes : Act C
  answers : Bool → Act C
  -- `reconnect` has opened a connection.
  -- The check of MySqlPool takes a connection, and gives it back, whether or not the pool is closed.
  draws : Act C
  puts_back : Act C
  reopens : C → Act C
  destroys : Act C

module _ {C : Type 0} where
  abbrev pool_of : Shared C → Pool C
  pool_of u = u.kept.pool

  abbrev with_pool : Pool C → Shared C → Shared C
  with_pool pool u = record u { kept = record u.kept { pool = pool } }

  -- `returnConnection` of a connection that a user held or that was under the check.
  abbrev pub given_back : C → Shared C → Shared C
  given_back c u = record (with_pool (return_connection c (pool_of u)) u) {
    dropped = if (pool_of u).b_stop then c ∷ u.dropped else u.dropped;
  }

  abbrev pub act : Act C → Shared C → Shared C
  act takes u = elim (get_connection (pool_of u)).0 [
    | Got.got c ↦ record (with_pool (get_connection (pool_of u)).1 u) { held = c ∷ u.held }
    | _ ↦ u
  ]
  act (returns n) u = elim (pick n u.held) [
    | none ↦ u
    | some c ↦ given_back c (record u { held = without n u.held })
  ]
  act closes u = with_pool (close (pool_of u)) u
  act probes u = elim (get_con_non_block (pool_of u)).0 [
    | none ↦ u
    | some c ↦ record (with_pool (get_con_non_block (pool_of u)).1 u) { checking = c ∷ u.checking }
  ]
  act (answers ok) u = elim u.checking [
    | [] ↦ u
    | c ∷ rest ↦ if ok then given_back c (record u { checking = rest }) else record u {
      kept = record u.kept { fail_count = u.kept.fail_count + 1 };
      checking = rest;
      freed = c ∷ u.freed;
    }
  ]
  act draws u = elim (pool_of u).connections [
    | [] ↦ u
    | c ∷ rest ↦ record (with_pool (record (pool_of u) { connections = rest }) u) {
      checking = c ∷ u.checking;
    }
  ]
  act puts_back u = elim u.checking [
    | [] ↦ u
    | c ∷ rest ↦
        record (with_pool (record (pool_of u) { connections = (pool_of u).connections ++ c ∷ [] })
          u) { checking = rest }
  ]
  act (reopens c) u = elim u.kept.fail_count [
    | zero ↦ u
    | suc n ↦ record u {
      kept = record {
        pool = record (pool_of u) { connections = (pool_of u).connections ++ c ∷ [] };
        fail_count = n;
      };
      opened = c ∷ u.opened;
    }
  ]
  act destroys u = record (with_pool (destroy (pool_of u)).1 u) {
    cleared = (destroy (pool_of u)).0 ++ u.cleared;
  }

  abbrev pub acts : List (Act C) → Shared C → Shared C
  acts [] u = u
  acts (a ∷ rest) u = acts rest (act a u)
