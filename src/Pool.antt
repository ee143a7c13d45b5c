-- ===== src/Pool.antt =====
-- src/infra/grpc/ChatConPool.cpp, src/infra/grpc/StatusConPool.cpp and
-- src/infra/redis/RedisConPool.cpp: a pool of connections, which its users share. Each method holds
-- the lock for its whole body, so it is one step.
pub mod Balance
pub mod Check
pub mod Rotate
pub mod Shared
pub mod Account
pub mod Closing
pub mod Queue
pub mod ChatCon
pub mod StatusCon
pub mod Deadlock
mod Tests
use chat_server.Base.{
  ℕ, zero, suc, ◌+◌, ◌-◌, Bool, true, false, List, [], ◌∷◌, ◌++◌, length, Option, none, some,
  if◌then◌else◌,
}
use chat_server.Frame.{Outcome}

pub record Pool (C : Type 0) : Type 0 where
  -- The front of the queue is the head of the list.
  pub connections : List C
  pub b_stop : Bool

-- What `getConnection` comes to: it waits on the condition variable, or it returns.
pub data Got (C : Type 0) : Type 0 where
  waits : Got C
  nullptr : Got C
  got : C → Got C

-- A call over a connection waits for one, or it comes to an outcome.
pub data Called (A : Type 0) : Type 0 where
  blocks : Called A
  returned : Outcome A → Called A

module _ {C : Type 0} where
  -- The connections that a constructor opens, by the number of its turn.
  abbrev new_connections : (ℕ → C) → ℕ → ℕ → List C
  new_connections connect i zero = []
  new_connections connect i (suc n) = connect i ∷ new_connections connect (i + 1) n

  -- The constructor.
  unfoldable pub new_pool : ℕ → (ℕ → C) → Pool C
  new_pool pool_size connect = record {
    connections = new_connections connect 0 pool_size;
    b_stop = false;
  }

  unfoldable pub get_connection : Pool C → Got C × Pool C
  get_connection pool = if pool.b_stop then (nullptr, pool) else elim pool.connections [
    | [] ↦ (waits, pool)
    | c ∷ rest ↦ (got c, record pool { connections = rest })
  ]

  -- After `close` the connection does not come back.
  unfoldable pub return_connection : C → Pool C → Pool C
  return_connection c pool =
      if pool.b_stop then pool else record pool { connections = pool.connections ++ c ∷ [] }

  unfoldable pub close : Pool C → Pool C
  close pool = record pool { b_stop = true }

  -- `clearConnections`: what it frees, front to back, and the pool after it.
  abbrev clear_connections : Pool C → List C × Pool C
  clear_connections pool = (pool.connections, record pool { connections = [] })

  -- The destructor.
  unfoldable pub destroy : Pool C → List C × Pool C
  unfolding close
  destroy pool = clear_connections (close pool)

  -- `getConNonBlock`
  pub get_con_non_block : Pool C → Option C × Pool C
  get_con_non_block pool = if pool.b_stop then (none, pool) else elim pool.connections [
    | [] ↦ (none, pool)
    | c ∷ rest ↦ (some c, record pool { connections = rest })
  ]

-- The pool of Redis with the number of connections that its thread found broken.
pub record Kept (C : Type 0) : Type 0 where
  pub pool : Pool C
  pub fail_count : ℕ

module _ {C : Type 0} where
  -- One turn of the first loop of `checkThreadPro`, with whether a connection answers the ping.
  -- `none` leaves the loop.
  pub check_one : (C → Bool) → Kept C → Option (Kept C)
  unfolding get_con_non_block return_connection
  check_one answers k = elim (get_con_non_block k.pool).0 [
    | none ↦ none
    | some c ↦ some (
        if answers c
        then record k { pool = return_connection c (get_con_non_block k.pool).1 }
        else record { pool = (get_con_non_block k.pool).1; fail_count = k.fail_count + 1 })
  ]

  -- The first loop, over the number of connections that it found at its start.
  pub check_loop : ℕ → (C → Bool) → Kept C → Kept C
  check_loop zero answers k = k
  check_loop (suc n) answers k = elim (check_one answers k) [
    | none ↦ k
    | some k' ↦ check_loop n answers k'
  ]

  -- The second loop, over the results of `reconnect`, of which the first failure ends it. It runs
  -- `fail_count` times at most.
  unfoldable pub reconnect_loop : ℕ → List (Option C) → Kept C → Kept C
  reconnect_loop zero tries k = k
  reconnect_loop (suc n) [] k = k
  reconnect_loop (suc n) (none ∷ tries) k = k
  reconnect_loop (suc n) (some c ∷ tries) k = reconnect_loop n tries (record {
    pool = record k.pool { connections = k.pool.connections ++ c ∷ [] };
    fail_count = k.fail_count - 1;
  })

  -- `checkThreadPro`, when no other thread uses the pool meanwhile. A missing result of
  -- `reconnect` is a failed one.
  pub check_thread_pro : (C → Bool) → List (Option C) → Kept C → Kept C
  unfolding check_loop reconnect_loop
  check_thread_pro answers tries k =
      let k' = check_loop (length k.pool.connections) answers k in
      reconnect_loop k'.fail_count tries k'
