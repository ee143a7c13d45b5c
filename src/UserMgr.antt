-- ===== src/UserMgr.antt =====
-- src/application/UserMgr.cpp: which session a user is logged in on. Each method holds the lock for
-- its whole body.
use chat_server.Base.{ℕ, Option}
use chat_server.Base.Int.{ℤ}
use chat_server.Base.Dict.{find, assign, erase, int_key}
use chat_server.World.{M, gets, modify}

module _ {S : Type 0} where
  -- `nullptr` is `none`.
  unfoldable pub get_session : ℤ → M S (Option ℕ)
  get_session uid = gets (λ w. find uid w.uid_to_session)

  unfoldable pub set_user_session : ℤ → ℕ → M S (Unit {0})
  set_user_session uid session =
      modify (λ w. record w { uid_to_session = assign uid session w.uid_to_session })

  unfoldable pub remove_user_session : ℤ → M S (Unit {0})
  remove_user_session uid = modify (λ w. record w { uid_to_session = erase uid w.uid_to_session })
