-- ===== src/Pool/Deadlock.antt =====
-- src/infra/redis/RedisConPool.cpp: whether `close` returns depends on when it is called.
use chat_server.Base.{ℕ, suc, ◌≡◌, refl, true, false}
use chat_server.Pool.Closing.{
  Closing, Run, here, then_on, checks, closes, resting, taking, waiting, returned, Run-stuck,
  resting-returned, testing-returned, pinging, giving,
}

-- An open pool between two checks.
abbrev pub at_rest : ℕ → Closing
at_rest m = record {
  point = resting;
  b_stop = false;
  connections = m;
  fail_count = 0;
  joins = false;
  closed = false;
}

-- `close` waits, and the check thread is about to take the first connection.
abbrev pub interrupted : ℕ → Closing
interrupted n = waiting (taking n) (suc n) 0

-- The check has begun, and is about to take the first connection.
abbrev unasked : ℕ → Closing
unasked n = record (at_rest (suc n)) { point = taking n }

-- `close` waits, and the check thread waits for the reply to its PING.
abbrev pinged : ℕ → Closing
pinged n = waiting (pinging n) n 0

-- `close` waits, and the check thread is about to give the connection back, which answered.
abbrev pub answered : ℕ → Closing
answered n = waiting (giving n) n 0

-- An open pool comes to the first turn of a check.
checking : (n : ℕ) (t : Closing) → Run (unasked n) t → Run (at_rest (suc n)) t
checking n t run =
    then_on (checks true refl) (then_on (checks true refl) (then_on (checks true refl) run))

pinging-pinged : (n : ℕ) (t : Closing) → Run (pinged n) t → Run (at_rest (suc n)) t
pinging-pinged n t run = checking n t (then_on (checks true refl) (then_on (closes refl) run))

-- From an open pool with a connection in it, between two checks, a call of `close` can come while a
-- check begins, so that `close` has the lock and waits for the thread, which is about to take a
-- connection; and it can come while the thread waits for the reply to a PING, so that the thread is
-- about to give the connection back, if it answers. From either point nothing moves any more,
-- whatever the thread, `close` and the users of the pool try. From the same pool, a call of `close`
-- can return if it comes before the check begins, or while the thread waits for the reply to a PING,
-- if that fails and the attempt to connect again does: then the connection is gone from the pool, and
-- counts as failed.
pub close-or-deadlock :
    (n : ℕ) (t u : Closing)
    → Run (interrupted n) t
    → Run (answered n) u
    → Run (at_rest (suc n)) (interrupted n)
      × (t ≡ interrupted n)
      × Run (at_rest (suc n)) (answered n)
      × (u ≡ answered n)
      × Run (at_rest (suc n)) (returned (suc n) 0)
      × Run (at_rest (suc n)) (returned n 1)
close-or-deadlock n t u run later = (
  checking n _ (then_on (closes refl) here),
  Run-stuck (interrupted n) t refl refl run,
  pinging-pinged n _ (then_on (checks true refl) here),
  Run-stuck (answered n) u refl refl later,
  then_on (closes refl) (resting-returned (suc n) 0),
  pinging-pinged n _ (then_on (checks false refl) (testing-returned n n 1)),
)
