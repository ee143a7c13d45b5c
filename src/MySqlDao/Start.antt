-- ===== src/MySqlDao/Start.antt =====
-- src/infra/mysql/MySqlDao.cpp: the calls on a pool that was opened while the database was down.
use chat_server.Base.{ℕ, suc, ◌≡◌, refl, false, [], Option, none}
use chat_server.Base.Int.{ℤ}
use chat_server.Base.Text.{Str}
use chat_server.Pool.{get_connection}
use chat_server.MySqlPool.{SqlConnection}
use chat_server.MySqlPool.Start.{Started, open_connections, mysql_pool}
use chat_server.MySqlDao.{Connector, Dao, Run}
use chat_server.MySqlDao.Calls.{
  get_user_info, get_user_info_by_name, add_friend_apply, get_apply_list, get_friend_apply_alias,
  get_friend_alias, auth_friend_apply, add_friend, get_friend_list,
}

module _ {C S : Type 0} (M : Connector C S) where
  -- Let the first connect of the constructor fail. Then no check thread runs, and every query waits:
  -- nobody holds a connection that could come back.
  pub mysql_pool-down :
      (n : ℕ) (connect : ℕ → Option (SqlConnection C)) (s : S) (uid touid begin limit : ℤ)
      (name x y : Str)
      → connect 0 ≡ none
      → let started : Started C = mysql_pool (suc n) connect in
        let d : Dao C S = record { pool = started.pool; server = s } in
        (started.checks ≡ false)
        × (get_user_info M uid d ≡ (Run.waits, d))
        × (get_user_info_by_name M name d ≡ (Run.waits, d))
        × (add_friend_apply M uid touid x d ≡ (Run.waits, d))
        × (get_apply_list M uid [] begin limit d ≡ (Run.waits, d))
        × (get_friend_apply_alias M uid touid d ≡ (Run.waits, d))
        × (get_friend_alias M uid touid d ≡ (Run.waits, d))
        × (auth_friend_apply M uid touid d ≡ (Run.waits, d))
        × (add_friend M uid touid x y d ≡ (Run.waits, d))
        × (get_friend_list M uid [] d ≡ (Run.waits, d))
  unfolding mysql_pool open_connections get_connection get_user_info get_user_info_by_name
      add_friend_apply get_apply_list get_friend_apply_alias get_friend_alias auth_friend_apply
      add_friend get_friend_list
  mysql_pool-down n connect s uid touid begin limit name x y h =
      rw (mysql_pool, open_connections, h)
        (refl, refl, refl, refl, refl, refl, refl, refl, refl, refl)
