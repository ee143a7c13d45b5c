-- ===== src/IoPool/Stop.antt =====
-- src/net/AsioIOServicePool.cpp: the pool from its constructor to `stop`.
use chat_server.Base.{
  ℕ, zero, suc, ◌+◌, ◌%◌, ◌<◌, ◌≡◌, refl, ap, true, false, List, [], ◌∷◌, length, some, All, arith,
}
use chat_server.IoPool.{
  Context, IoServicePool, size, contexts, io_service_pool, get_io_service, after, stop_all, stop,
  returns, get_io_service-turn,
}

after-io_services : (k : ℕ) (pool : IoServicePool) → (after k pool).io_services ≡ pool.io_services
unfolding get_io_service
after-io_services zero pool = refl
after-io_services (suc k) pool = after-io_services k (get_io_service pool).1

length-contexts : (n : ℕ) → length (contexts n) ≡ n
length-contexts zero = refl
length-contexts (suc n) = omega (arith, length-contexts n)

contexts-run : (n : ℕ) → All (λ (c : Context). returns c ≡ false) (contexts n)
contexts-run zero = tt
contexts-run (suc n) = (refl, contexts-run n)

-- What `stop` leaves of new contexts.
abbrev stopped_ones : ℕ → List Context
stopped_ones zero = []
stopped_ones (suc n) = record { has_work = false; stopped = true } ∷ stopped_ones n

stop_all-contexts : (n : ℕ) → stop_all (contexts n) ≡ some (stopped_ones n)
stop_all-contexts zero = refl
stop_all-contexts (suc n) = rw (stop_all-contexts n) refl

stop-contexts :
    (pool : IoServicePool) (n : ℕ)
    → pool.io_services ≡ contexts n
    → stop pool ≡ some (record pool { io_services = stopped_ones n })
unfolding stop
stop-contexts pool n e = rw (e, stop, stop_all-contexts n) refl

stopped_ones-return : (n : ℕ) → All (λ (c : Context). returns c ≡ true) (stopped_ones n)
stopped_ones-return zero = tt
stopped_ones-return (suc n) = (refl, stopped_ones-return n)

length-stopped_ones : (n : ℕ) → length (stopped_ones n) ≡ n
length-stopped_ones zero = refl
length-stopped_ones (suc n) = omega (arith, length-stopped_ones n)

-- Let a pool be constructed with at least one context. After any number `k` of calls of
-- `getIOService`, the next call gives the context `k` modulo the size, which is one of the pool's;
-- until then no context's `run` returns. `stop` then follows no null pointer, and after it the `run`
-- of each of the contexts returns, so the joins end.
pub io_service_pool-life :
    (k n : ℕ)
    → 0 < n
    → let pool = after k (io_service_pool n) in
      ((get_io_service pool).0 ≡ k % n)
      × ((get_io_service pool).0 < n)
      × All (λ (c : Context). returns c ≡ false) pool.io_services
      × ((done : IoServicePool) × (stop pool ≡ some done)
          × (size done ≡ n)
          × All (λ (c : Context). returns c ≡ true) done.io_services)
unfolding io_service_pool
io_service_pool-life k n h = (
  rw (turn.0, length-contexts n) (ap (λ i. i % n) start),
  below,
  rw kept (contexts-run n),
  (
    record (after k new) { io_services = stopped_ones n },
    stop-contexts (after k new) n kept,
    length-stopped_ones n,
    stopped_ones-return n,
  ),
)
  where
    new : IoServicePool
    new = record { io_services = contexts n; next_io_service = 0 }

    kept : (after k new).io_services ≡ contexts n
    kept = after-io_services k new

    start : 0 + k ≡ k
    start = omega arith

    turn :
        ((get_io_service (after k new)).0 ≡ (0 + k) % size new)
        × ((get_io_service (after k new)).0 < size new)
    turn = get_io_service-turn k new (rw (length-contexts n) h)

    below : (get_io_service (after k new)).0 < n
    below = omega (arith, turn.1, length-contexts n)
