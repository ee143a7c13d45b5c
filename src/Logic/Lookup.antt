-- ===== src/Logic/Lookup.antt =====
-- src/application/LogicSystem.cpp: looking users up, in MySQL and in the copies that Redis holds
-- (`getBaseInfo`, `getUserByUid`, `getUserByName`, `searchUserHandler`).
use chat_server.Base.{ℕ, not, [], Option, none, some, if◌then◌else◌}
use chat_server.Base.Int.{ℤ}
use chat_server.Base.Text.{Str, bytes, is_empty}
use chat_server.Base.Decimal.{to_string, stoi}
use chat_server.Domain.{UserInfo, ErrorCode, MsgId, msg_number, user_base_key, user_name_key}
use chat_server.Json.{Json, Members}
use chat_server.Profile.{put_error, put_profile, read_profile}
use chat_server.Services.{Services}
use chat_server.World.{M, pure, skip, or_throw, call, when, if_found, ◌>>=◌, ◌>>◌}
use chat_server.Session.{send}

-- `if (nick.empty()) nick = name`
abbrev pub nick_or_name : UserInfo → UserInfo
nick_or_name u = record u { nick = if is_empty u.nick then u.name else u.nick }

module _ {S V : Type 0} (J : Json V) (E : Services S) where
  -- The copy goes under the uid and, if there is a name, under the name.
  unfoldable pub cache_profile : Str → UserInfo → Str → M S (Unit {0})
  cache_profile base_key u text = do
    call (E.redis_set base_key text)
    when (not (is_empty u.name)) (do call (E.redis_set (user_name_key u.name) text); skip)

  -- `LogicSystem::getBaseInfo`; `none` is `false`.
  unfoldable pub get_base_info : Str → ℤ → M S (Option UserInfo)
  get_base_info base_key uid = do
    db_user ← call (E.user_by_uid uid)
    if_found db_user (pure none) λ u. do
      cache_profile base_key (nick_or_name u)
          (J.write (J.object (put_profile J (nick_or_name u) [])))
      pure (some (nick_or_name u))

  -- Both lookups of `searchUserHandler` answer from a cached copy in this way.
  unfoldable pub answer_cached : Str → M S (Members V)
  answer_cached info = do
    u ← or_throw (read_profile J (J.parse info).1)
    pure (put_profile J u (put_error J ErrorCode.success []))

  -- They end in this way when MySQL was asked: the answer has no member but the error.
  unfoldable pub answer_database : Option UserInfo → (UserInfo → Str) → M S (Members V)
  answer_database found base_key =
      if_found found (pure (put_error J ErrorCode.uid_invalid (put_error J ErrorCode.success [])))
        λ u. do
          cache_profile (base_key u) u (J.to_styled_string (J.object (put_profile J u [])))
          pure (put_error J ErrorCode.success [])

  unfoldable pub query_uid : Str → M S (Members V)
  query_uid uid_str = do
    uid ← or_throw (stoi uid_str)
    found ← call (E.user_by_uid uid)
    answer_database found (λ u. user_base_key uid_str)

  unfoldable pub get_user_by_uid : Str → M S (Members V)
  unfolding query_uid answer_cached answer_database
  get_user_by_uid uid_str = do
    cached ← call (E.redis_get (user_base_key uid_str))
    if_found cached (query_uid uid_str) answer_cached

  unfoldable pub query_name : Str → M S (Members V)
  query_name name_str = do
    found ← call (E.user_by_name name_str)
    answer_database found (λ u. user_base_key (to_string u.uid))

  unfoldable pub get_user_by_name : Str → M S (Members V)
  unfolding query_name answer_cached answer_database
  get_user_by_name name_str = do
    cached ← call (E.redis_get (user_name_key name_str))
    if_found cached (query_name name_str) answer_cached

  unfoldable pub search_by : V → M S (Members V)
  search_by root = do
    uid ← or_throw (J.get root (bytes "uid"))
    uid_str ← or_throw (J.as_string uid)
    if J.is_int uid then get_user_by_uid uid_str else get_user_by_name uid_str

  -- The body of `searchUserHandler`: the result that its `Defer` sends.
  unfoldable pub search_result : Str → M S (Members V)
  search_result msg_data =
      if not (J.parse msg_data).0 then pure (put_error J ErrorCode.error_json []) else do
        member ← or_throw (J.is_member (J.parse msg_data).1 (bytes "uid"))
        if member
            then search_by (J.parse msg_data).1
            else pure (put_error J ErrorCode.error_json [])

  unfoldable pub search_user_handler : ℕ → Str → M S (Unit {0})
  unfolding search_result search_by get_user_by_uid get_user_by_name
  search_user_handler session msg_data = do
    result ← search_result msg_data
    send session (J.to_styled_string (J.object result)) (msg_number MsgId.search_user_rsp)
