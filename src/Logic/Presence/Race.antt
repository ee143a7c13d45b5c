-- ===== src/Logic/Presence/Race.antt =====
-- src/application/LogicSystem.cpp and src/net/CSession.cpp: the login counter, where the thread of
-- the logic system and the thread of a session update it at one time.
use chat_server.Base.{
  ℕ, ◌+◌, ◌-◌, ◌<◌, ◌^◌, ◌==◌, ◌≡◌, refl, false, some, inl, inr, arith, Option-cases,
}
use chat_server.Base.Int.{ℤ, pos}
use chat_server.Base.Decimal.{to_string}
use chat_server.Domain.{login_count}
use chat_server.Services.{Services, HashLaws}
use chat_server.World.{World, M, skip, or_throw, outcome, call, ◌>>=◌, ◌>>◌}
use chat_server.UserMgr.{remove_user_session}
use chat_server.Session.{read_count, decrement, log_out, set_user_id}
use chat_server.Logic.Login.{count_login, increment}
use chat_server.Logic.Presence.{counter, read_count-to_string}

module _ {S : Type 0} (E : Services S) where
  -- The counter as a thread reads it, before it writes it.
  unfoldable count_read : M S ℤ
  count_read = do
    rd_res ← call (E.redis_h_get login_count E.self_name)
    or_throw (read_count rd_res)

  unfoldable count_write : ℤ → M S (Unit {0})
  count_write count = do call (E.redis_h_set login_count E.self_name (to_string count)); skip

  -- The part of `close` for the counter, whole.
  unfoldable pub count_logout : M S (Unit {0})
  unfolding count_read count_write
  count_logout = do count ← count_read; count_write (decrement count)

  -- The counting of a login is these two pieces around `increment`.
  count_login-pieces :
      (w : World S)
      → count_login E w
        ≡ (do count ← count_read; next ← outcome (increment count); count_write next) w
  unfolding count_login count_read count_write increment
  count_login-pieces w =
      elim (Option-cases (read_count (E.redis_h_get login_count E.self_name w.outside).0)) [
        | inl e ↦ rw e refl
        | inr (count, e) ↦ rw e refl
      ]

  -- What `close` does for a logged-in user is these two pieces around `decrement`, and then it
  -- forgets him.
  log_out-pieces :
      (p : ℕ) (uid : ℤ) (w : World S)
      → log_out E p uid w ≡ (count_logout >> remove_user_session uid >> set_user_id p (pos 0)) w
  unfolding log_out count_logout count_read count_write
  log_out-pieces p uid w =
      elim (Option-cases (read_count (E.redis_h_get login_count E.self_name w.outside).0)) [
        | inl e ↦ rw e refl
        | inr (count, e) ↦ rw e refl
      ]

  -- A login and a `close` that both read the counter before one of them writes it: the login writes
  -- first here, and `close` in the other.
  unfoldable pub close_overwrites : M S (Unit {0})
  unfolding count_read count_write
  close_overwrites = do
    seen_by_login ← count_read
    seen_by_close ← count_read
    next ← outcome (increment seen_by_login)
    count_write next
    count_write (decrement seen_by_close)

  unfoldable pub login_overwrites : M S (Unit {0})
  unfolding count_read count_write
  login_overwrites = do
    seen_by_login ← count_read
    seen_by_close ← count_read
    next ← outcome (increment seen_by_login)
    count_write (decrement seen_by_close)
    count_write next

  -- Let Redis keep what is written to a hash (HashLaws), and let the server's counter read as `n`,
  -- above 0 and below the largest `int`. Then a login that counts whole before a `close` counts leaves
  -- the counter reading as `n`. If both read it before either writes it, then one update is lost: it
  -- reads as `n - 1` where `close` writes last, and as `n + 1` where the login does.
  pub updates-race :
      (laws : HashLaws E) (n : ℕ) (w : World S)
      → counter E w ≡ some (pos n)
      → 0 < n
      → n < 2 ^ 31 - 1
      → (counter E ((count_login E >> count_logout) w).1 ≡ some (pos n))
        × (counter E (close_overwrites w).1 ≡ some (pos (n - 1)))
        × (counter E (login_overwrites w).1 ≡ some (pos (n + 1)))
  unfolding close_overwrites login_overwrites count_logout count_login count_read count_write
      increment
  updates-race laws n w c some_logins h = (
    rw (c, below, laws.h_get-h_set, read_count-to_string (n + 1) more, laws.h_get-h_set, less)
        (read_count-to_string n (omega arith)),
    rw (c, laws.h_get-h_get, c, below, laws.h_get-h_set)
        (read_count-to_string (n - 1) (omega arith)),
    rw (c, laws.h_get-h_get, c, below, laws.h_get-h_set) (read_count-to_string (n + 1) more),
  )
    where
      below : (n == 2 ^ 31 - 1) ≡ false
      below = ground arith

      more : n + 1 < 2 ^ 31
      more = omega arith

      less : n + 1 - 1 ≡ n
      less = omega arith
