-- ===== src/Pool/Queue.antt =====
-- What the methods of the pools are written with: the condition variable and the queue.
use chat_server.Base.{◌≡◌, refl, Bool, true, false, List, [], ◌∷◌, if◌then◌else◌}
use chat_server.Frame.{Outcome}
use chat_server.Pool.{Pool, Got, waits, got}

module _ {C : Type 0} where
  abbrev pub has_none : Pool C → Bool
  has_none pool = elim pool.connections [ [] ↦ true | _ ∷ _ ↦ false ]

  -- `_cond.wait(lock, ready)`, and the code behind it.
  abbrev pub wait_until :
      (Pool C → Bool) → (Pool C → Outcome (Got C × Pool C)) → Pool C → Outcome (Got C × Pool C)
  wait_until ready next pool = if ready pool then next pool else Outcome.ok (waits, pool)

  -- Of an empty queue, `front` is undefined.
  abbrev pub pop_front : Pool C → Outcome (Got C × Pool C)
  pop_front pool = elim pool.connections [
    | [] ↦ Outcome.fault
    | c ∷ rest ↦ Outcome.ok (got c, record pool { connections = rest })
  ]

  -- The loop of the destructors: what it pops, and what is left.
  abbrev pub pop_all : List C → List C × List C
  pop_all [] = ([], [])
  pop_all (c ∷ cs) = let rest = pop_all cs in (c ∷ rest.0, rest.1)

  abbrev pub popped : Pool C → List C × Pool C
  popped pool =
      let (gone, rest) = pop_all pool.connections in (gone, record pool { connections = rest })

  pub pop_all-takes : (cs : List C) → pop_all cs ≡ (cs, [])
  pop_all-takes [] = refl
  pop_all-takes (c ∷ cs) = rw (pop_all-takes cs) refl
