-- ===== src/Pool/ChatCon.antt =====
-- src/infra/grpc/ChatConPool.cpp: the methods of this pool.
use chat_server.Base.{◌||◌, not, [], ◌∷◌, ◌++◌, if◌then◌else◌, true, List}
use chat_server.Frame.{Outcome}
use chat_server.Pool.{Pool, Got, nullptr}
use chat_server.Pool.Queue.{has_none, wait_until, pop_front, popped}

module _ {C : Type 0} where
  unfoldable pub get_connection : Pool C → Outcome (Got C × Pool C)
  get_connection =
      wait_until (λ pool. pool.b_stop || not (has_none pool))
        λ pool.
          if pool.b_stop
          then Outcome.ok (nullptr, pool)
          else (if has_none pool then Outcome.ok (nullptr, pool) else pop_front pool)

  unfoldable pub return_connection : C → Pool C → Pool C
  return_connection context pool =
      if pool.b_stop then pool else record pool { connections = pool.connections ++ context ∷ [] }

  unfoldable pub close : Pool C → Pool C
  close pool = record pool { b_stop = true }

  -- The destructor.
  unfoldable pub destroy : Pool C → List C × Pool C
  unfolding close
  destroy pool = popped (close pool)
