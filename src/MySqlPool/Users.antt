-- ===== src/MySqlPool/Users.antt =====
-- src/infra/mysql/MySqlPool.cpp: the methods that its users call.
use chat_server.Base.{◌≡◌, refl, Bool, not, [], ◌∷◌, ◌++◌, ◌&&◌, if◌then◌else◌, true, false, List}
use chat_server.Frame.{Outcome}
use chat_server.Pool.{Pool, Got, nullptr, Called}
use chat_server.Pool.Queue.{has_none, wait_until, pop_front, popped, pop_all-takes}

module _ {C : Type 0} where
  unfoldable pub get_connection : Pool C → Outcome (Got C × Pool C)
  get_connection =
      wait_until (λ pool. if pool.b_stop then true else not (has_none pool))
        λ pool. if pool.b_stop then Outcome.ok (nullptr, pool) else pop_front pool

  unfoldable pub return_connection : C → Pool C → Pool C
  return_connection con pool =
      if pool.b_stop then pool else record pool { connections = pool.connections ++ con ∷ [] }

  unfoldable pub close : Pool C → Pool C
  close pool = record pool { b_stop = true }

  -- The destructor, by whether there is a check thread and whether that ends: it waits for it.
  unfoldable destroy : Bool → Bool → Pool C → Called (List C × Pool C)
  destroy joinable ends pool =
      let closed = close pool in
      if joinable && not ends then Called.blocks else Called.returned (Outcome.ok (popped closed))

  -- With no check thread, or one that ends, the destructor leaves no connection.
  destroy-empties :
      (joinable ends : Bool) (pool : Pool C)
      → (joinable && not ends) ≡ false
      → destroy joinable ends pool
        ≡ Called.returned
            (Outcome.ok (pool.connections, record { connections = []; b_stop = true }))
  unfolding destroy close
  destroy-empties joinable ends pool h = rw (h, pop_all-takes pool.connections) refl
