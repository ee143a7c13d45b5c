-- ===== src/MySqlMgr.antt =====
-- src/infra/mysql/MySqlMgr.cpp: the calls that the handlers make, each of which is passed on to the
-- data access object.
pub mod Answers
pub mod Agrees
pub mod FriendList
pub mod Refines
mod Tests
use chat_server.Base.{Bool, List, Option}
use chat_server.Base.Int.{ℤ}
use chat_server.Base.Text.{Str}
use chat_server.Domain.{UserInfo, ApplyInfo}
use chat_server.MySqlDao.{Connector, Dao, Run}
use chat_server.MySqlDao.Calls

pub record MySqlMgr (D : Type 0) : Type 0 where
  pub get_user_info : ℤ → D → Run (Option UserInfo) × D
  pub get_user_info_by_name : Str → D → Run (Option UserInfo) × D
  pub add_friend_apply : ℤ → ℤ → Str → D → Run Bool × D
  pub get_friend_alias : ℤ → ℤ → D → Run (Option Str) × D
  pub get_friend_apply_alias : ℤ → ℤ → D → Run (Option Str) × D
  pub get_apply_list : ℤ → List ApplyInfo → ℤ → ℤ → D → Run (Bool × List ApplyInfo) × D
  pub auth_friend_apply : ℤ → ℤ → D → Run Bool × D
  pub add_friend : ℤ → ℤ → Str → Str → D → Run Bool × D
  pub get_friend_list : ℤ → List UserInfo → D → Run (Bool × List UserInfo) × D

abbrev pub mysql_mgr : {C S : Type 0} → Connector C S → MySqlMgr (Dao C S)
mysql_mgr M = record {
  get_user_info = Calls.get_user_info M;
  get_user_info_by_name = Calls.get_user_info_by_name M;
  add_friend_apply = Calls.add_friend_apply M;
  get_friend_alias = Calls.get_friend_alias M;
  get_friend_apply_alias = Calls.get_friend_apply_alias M;
  get_apply_list = Calls.get_apply_list M;
  auth_friend_apply = Calls.auth_friend_apply M;
  add_friend = Calls.add_friend M;
  get_friend_list = Calls.get_friend_list M;
}
