-- ===== src/Logic/Login.antt =====
-- src/application/LogicSystem.cpp: `loginHandler`, with `getFriendApplyInfo` and `getFriendList`.
use chat_server.Base.{
  ℕ, suc, zero, ◌+◌, ◌-◌, ◌^◌, ◌==◌, String, List, [], ◌∷◌, map, Option, none, some, if◌then◌else◌,
}
use chat_server.Base.Int.{ℤ, pos, negsuc}
use chat_server.Base.Text.{Str, str_eq}
use chat_server.Base.Decimal.{to_string}
use chat_server.Domain.{
  UserInfo, ApplyInfo, ErrorCode, MsgId, msg_number, user_base_key, user_token_key, user_ip_key,
  login_count,
}
use chat_server.Frame.{Outcome}
use chat_server.Json.{Json, Members, put, int_member, text_member}
use chat_server.Profile.{put_int, put_text, put_error}
use chat_server.Services.{Services}
use chat_server.World.{M, pure, skip, or_throw, outcome, call, if_found, ◌>>=◌, ◌>>◌}
use chat_server.UserMgr.{set_user_session}
use chat_server.Session.{send, set_user_id, read_count}
use chat_server.Logic.Lookup.{get_base_info}

-- `count++` on an `int`; past the largest value it is undefined.
unfoldable pub increment : ℤ → Outcome ℤ
increment (pos n) = if n == 2 ^ 31 - 1 then Outcome.fault else Outcome.ok (pos (n + 1))
increment (negsuc zero) = Outcome.ok (pos 0)
increment (negsuc (suc n)) = Outcome.ok (negsuc n)

module _ {V : Type 0} (J : Json V) where
  -- The members of the reply that describe the user.
  abbrev pub put_user : ℤ → UserInfo → Members V → Members V
  put_user uid u m = put_text J "icon" u.icon (
      put_int J "sex" u.sex (
        put_text J "desc" u.desc (
          put_text J "nick" u.nick (
            put_text J "email" u.email
              (put_text J "name" u.name (put_text J "pwd" u.pwd (put_int J "uid" uid m)))))))

  abbrev pub apply_value : ApplyInfo → V
  apply_value a = J.object (
      put_text J "alias_name" a.alias_name (
        put_int J "status" a.status (
          put_int J "sex" a.sex (
            put_text J "nick" a.nick
              (put_text J "icon" a.icon (put_int J "uid" a.uid (put_text J "name" a.name [])))))))

  abbrev pub friend_value : UserInfo → V
  friend_value u = J.object (
      put_text J "alias_name" u.alias_name (
        put_text J "desc" u.desc (
          put_int J "sex" u.sex (
            put_text J "nick" u.nick
              (put_text J "icon" u.icon (put_int J "uid" u.uid (put_text J "name" u.name [])))))))

  -- A loop of `m["key"].append(value)`: the member appears with the first value.
  abbrev pub put_values : String → List V → Members V → Members V
  put_values k [] m = m
  put_values k (v ∷ vs) m = put k (J.array (v ∷ vs)) m

  -- The list of applications is skipped where its query failed.
  abbrev pub put_applies : Option (List ApplyInfo) → Members V → Members V
  put_applies none m = m
  put_applies (some applies) m = put_values "apply_list" (map apply_value applies) m

module _ {S : Type 0} (E : Services S) where
  -- The login counter of this server goes up by one.
  unfoldable pub count_login : M S (Unit {0})
  unfolding increment
  count_login = do
    rd_res ← call (E.redis_h_get login_count E.self_name)
    count ← or_throw (read_count rd_res)
    next ← outcome (increment count)
    call (E.redis_h_set login_count E.self_name (to_string next))
    skip

  -- What binds the user to this server and to the session, as one piece: the counter is read and
  -- written without a lock, and Logic.Presence.Race takes these apart.
  unfoldable pub bind_user : ℕ → ℤ → M S (Unit {0})
  unfolding count_login set_user_id set_user_session
  bind_user session uid = do
    count_login
    set_user_id session uid
    call (E.redis_set (user_ip_key uid) E.self_name)
    set_user_session uid session

module _ {S V : Type 0} (J : Json V) (E : Services S) where
  -- The part behind the token check: the reply that the `Defer` sends.
  unfoldable pub accept_login : ℕ → ℤ → M S (Members V)
  unfolding get_base_info bind_user
  accept_login session uid = do
    user ← get_base_info J E (user_base_key (to_string uid)) uid
    if_found user (pure (put_error J ErrorCode.uid_invalid (put_error J ErrorCode.success []))) λ u.
        do
          applies ← call (E.get_apply_list uid 0 10)
          friends ← call (E.get_friend_list uid)
          bind_user E session uid
          pure (
              put_values J "friend_list" (map (friend_value J) friends.1)
                (put_applies J applies (put_user J uid u (put_error J ErrorCode.success []))))

  unfoldable pub login_result : ℕ → ℤ → Str → M S (Members V)
  login_result session uid token = do
    stored ← call (E.redis_get (user_token_key (to_string uid)))
    if_found stored (pure (put_error J ErrorCode.uid_invalid [])) λ token_value.
        if str_eq token_value token
        then accept_login session uid
        else pure (put_error J ErrorCode.token_invalid [])

  unfoldable pub login_handler : ℕ → Str → M S (Unit {0})
  unfolding login_result accept_login
  login_handler session msg_data = do
    uid ← or_throw (int_member J (J.parse msg_data).1 "uid")
    token ← or_throw (text_member J (J.parse msg_data).1 "token")
    reply ← login_result session uid token
    send session (J.to_styled_string (J.object reply)) (msg_number MsgId.chat_login_rsp)
