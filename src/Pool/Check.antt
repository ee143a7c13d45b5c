-- ===== src/Pool/Check.antt =====
-- src/infra/redis/RedisConPool.cpp: the thread that looks after the connections.
use chat_server.Base.{
  ℕ, zero, suc, ◌+◌, ◌≤◌, ◌≡◌, refl, ◌∙◌, Bool, true, false, List, [], ◌∷◌, Option, none, some,
  arith, Bool-cases, Option-cases, inl, inr, length, length-append,
}
use mathlib.Core.Option.{some-injective}
use chat_server.Pool.{
  Kept, get_con_non_block, return_connection, check_one, check_loop, reconnect_loop,
  check_thread_pro,
}

module _ {C : Type 0} where
  -- The connections there are, and those to be replaced.
  abbrev due : Kept C → ℕ
  due k = length k.pool.connections + k.fail_count

  turn-due :
      (answers : C → Bool) (cs : List C) (b : Bool) (f : ℕ) (k' : Kept C)
      → check_one answers
          (record { pool = record { connections = cs; b_stop = b }; fail_count = f })
        ≡ some k'
      → due k' ≡ length cs + f
  unfolding check_one get_con_non_block return_connection
  turn-due answers cs true f k' h = cc
  turn-due answers [] false f k' h = cc
  turn-due answers (c ∷ cs) false f k' h =
      rw (← some-injective _ k' h) (elim (Bool-cases (answers c)) [
        | inl good ↦ rw good (rw (length-append cs (c ∷ [])) (omega arith))
        | inr bad ↦ rw bad (omega arith)
      ])

  loop-due : (n : ℕ) (answers : C → Bool) (k : Kept C) → due (check_loop n answers k) ≡ due k
  unfolding check_loop
  loop-due zero answers k = refl
  loop-due (suc n) answers k = elim (Option-cases (check_one answers k)) [
    | inl h ↦ rw (check_loop, h)
    | inr (k', h) ↦
        rw (check_loop, h)
          (loop-due n answers k'
            ∙ turn-due answers k.pool.connections k.pool.b_stop k.fail_count k' h)
  ]

  reconnect-due :
      (n : ℕ) (tries : List (Option C)) (k : Kept C)
      → n ≤ k.fail_count
      → due (reconnect_loop n tries k) ≡ due k
  unfolding reconnect_loop
  reconnect-due zero tries k h = refl
  reconnect-due (suc n) [] k h = refl
  reconnect-due (suc n) (none ∷ tries) k h = refl
  reconnect-due (suc n) (some c ∷ tries) k h =
      reconnect-due n tries _ (omega arith)
      ∙ rw (length-append k.pool.connections (c ∷ [])) (omega arith)

  -- Whatever connections answer, and however the attempts to connect again end, the connections in
  -- the pool and those counted as missing are as many together after a check as before it.
  check-due :
      (answers : C → Bool) (tries : List (Option C)) (k : Kept C)
      → due (check_thread_pro answers tries k) ≡ due k
  unfolding check_thread_pro
  check-due answers tries k =
      reconnect-due _ tries (check_loop (length k.pool.connections) answers k) (omega arith)
      ∙ loop-due (length k.pool.connections) answers k
