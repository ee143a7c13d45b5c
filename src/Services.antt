-- ===== src/Services.antt =====
-- The calls that the chat logic makes of RedisMgr, MySqlMgr, ChatGrpcClient and ConfigMgr, as an
-- interface over the state `S` of everything behind them. Each call returns; a `false` result of
-- `get` or of an alias query, whose out-parameter then stays empty, is `none`.
use chat_server.Base.{ℕ, ◌≡◌, ◌≢◌, Bool, Option, some, List, if◌then◌else◌}
use chat_server.Base.Int.{ℤ}
use chat_server.Base.Text.{Str, str_eq}
use chat_server.Domain.{UserInfo, ApplyInfo}
use chat_server.Rpc.{
  AddFriendReq, AddFriendRsp, AuthFriendReq, AuthFriendRsp, TextChatMsgReq, TextChatMsgRsp,
}

pub record Services (S : Type 0) : Type 0 where
  -- `ConfigMgr::getInstance()["SelfServer"]["Name"]`
  pub self_name : Str
  pub redis_get : Str → S → Option Str × S
  pub redis_set : Str → Str → S → Bool × S
  -- `""` where there is no value.
  pub redis_h_get : Str → Str → S → Str × S
  pub redis_h_set : Str → Str → Str → S → Bool × S
  pub user_by_uid : ℤ → S → Option UserInfo × S
  pub user_by_name : Str → S → Option UserInfo × S
  pub add_friend_apply : ℤ → ℤ → Str → S → Bool × S
  -- `none` is a failure; `begin` and `limit` follow the user.
  pub get_apply_list : ℤ → ℕ → ℕ → S → Option (List ApplyInfo) × S
  pub get_friend_apply_alias : ℤ → ℤ → S → Option Str × S
  pub get_friend_alias : ℤ → ℤ → S → Option Str × S
  pub auth_friend_apply : ℤ → ℤ → S → Bool × S
  pub add_friend : ℤ → ℤ → Str → Str → S → Bool × S
  -- The result, and the list, which a failure may leave in part.
  pub get_friend_list : ℤ → S → (Bool × List UserInfo) × S
  pub notify_add_friend : Str → AddFriendReq → S → AddFriendRsp × S
  pub notify_auth_friend : Str → AuthFriendReq → S → AuthFriendRsp × S
  pub notify_text_chat_msg : Str → TextChatMsgReq → S → TextChatMsgRsp × S

-- The documented behaviour of Redis that theorems about the login counter use: reading changes no
-- value, a field holds what was written last, and a text key is not a field of another key's hash.
pub record HashLaws {S : Type 0} (E : Services S) : Type 0 where
  pub h_get-h_get :
      (k f k' f' : Str) (s : S)
      → (E.redis_h_get k f (E.redis_h_get k' f' s).1).0 ≡ (E.redis_h_get k f s).0
  pub h_get-h_set : (k f v : Str) (s : S) → (E.redis_h_get k f (E.redis_h_set k f v s).1).0 ≡ v
  pub h_get-set :
      (k f k' v : Str) (s : S)
      → k ≢ k'
      → (E.redis_h_get k f (E.redis_set k' v s).1).0 ≡ (E.redis_h_get k f s).0

-- Reading a text of Redis, or a table of MySQL, changes no hash of Redis.
pub record ReadLaws {S : Type 0} (E : Services S) : Type 0 where
  pub h_get-get :
      (k f j : Str) (s : S) → (E.redis_h_get k f (E.redis_get j s).1).0 ≡ (E.redis_h_get k f s).0
  pub h_get-user_by_uid :
      (k f : Str) (uid : ℤ) (s : S)
      → (E.redis_h_get k f (E.user_by_uid uid s).1).0 ≡ (E.redis_h_get k f s).0
  pub h_get-get_apply_list :
      (k f : Str) (uid : ℤ) (from count : ℕ) (s : S)
      → (E.redis_h_get k f (E.get_apply_list uid from count s).1).0 ≡ (E.redis_h_get k f s).0
  pub h_get-get_friend_list :
      (k f : Str) (uid : ℤ) (s : S)
      → (E.redis_h_get k f (E.get_friend_list uid s).1).0 ≡ (E.redis_h_get k f s).0

-- The documented behaviour of Redis that theorems about the cached copies use: a key holds what
-- was written last, and writing one key, if it succeeds, changes no other.
pub record TextLaws {S : Type 0} (E : Services S) : Type 0 where
  pub get-set :
      (k j v : Str) (s : S)
      → (E.redis_get j (E.redis_set k v s).1).0
        ≡ (if str_eq k j then some v else (E.redis_get j s).0)
