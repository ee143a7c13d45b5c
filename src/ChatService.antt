-- ===== src/ChatService.antt =====
-- src/application/ChatServiceImpl.cpp: the calls that another chat node makes of this one. Each
-- returns `Status::OK`, so a call's result is its reply.
pub mod Bystander
pub mod Built
mod Tests
use chat_server.Base.{ℕ, String, List, [], ◌∷◌, map, Option, none, some}
use chat_server.Base.Int.{ℤ, pos}
use chat_server.Base.Text.{Str, bytes}
use chat_server.Base.Decimal.{to_string}
use chat_server.Domain.{UserInfo, ErrorCode, error_number, MsgId, msg_number, user_base_key}
use chat_server.Rpc.{
  AddFriendReq, AddFriendRsp, AuthFriendReq, AuthFriendRsp, TextChatMsgReq, TextChatMsgRsp,
  TextChatData,
}
use chat_server.Json.{Json, Members, put}
use chat_server.Profile.{put_int, put_text, put_error, put_profile, read_profile}
use chat_server.Services.{Services}
use chat_server.World.{World, M, pure, skip, or_throw, call, if_found, ◌>>=◌, ◌>>◌}
use chat_server.UserMgr.{get_session}
use chat_server.Session.{send}

-- The out-parameter of the alias query, which is empty before it.
abbrev or_empty : Option Str → Str
or_empty none = []
or_empty (some s) = s

module _ {V : Type 0} (J : Json V) where
  abbrev pub friend_notice : AddFriendReq → Members V
  friend_notice req = put_text J "alias_name" req.alias_name (
      put_text J "nick" req.nick (
        put_int J "sex" req.sex (
          put_text J "icon" req.icon (
            put_text J "desc" req.desc (
              put_text J "name" req.name
                (put_int J "applyuid" req.applyuid (put_error J ErrorCode.success [])))))))

  abbrev pub text_element : TextChatData → V
  text_element t = J.object (put_text J "content" t.msgcontent (put_text J "msgid" t.msgid []))

  -- `text_array` is null until the first element is appended.
  abbrev pub text_array : List TextChatData → V
  text_array [] = J.null
  text_array (t ∷ ts) = J.array (map (text_element) (t ∷ ts))

  abbrev pub text_notice : TextChatMsgReq → Members V
  text_notice req = put "text_array" (text_array req.textmsgs) (
      put_int J "touid" req.touid
        (put_int J "fromuid" req.fromuid (put_error J ErrorCode.success [])))

module _ {S V : Type 0} (J : Json V) (E : Services S) where
  query_user : Str → ℤ → M S (Option UserInfo)
  query_user base_key uid = do
    found ← call (E.user_by_uid uid)
    if_found found (pure none) λ u. do
      call (E.redis_set base_key (J.to_styled_string (J.object (put_profile J u []))))
      pure (some u)

  -- `ChatServiceImpl::getBaseInfo`: Redis first, then MySQL with a new copy for Redis.
  unfoldable pub get_base_info : Str → ℤ → M S (Option UserInfo)
  unfolding query_user
  get_base_info base_key uid = do
    cached ← call (E.redis_get base_key)
    if_found cached (query_user base_key uid)
        λ info. do u ← or_throw (read_profile J (J.parse info).1); pure (some u)

  unfoldable pub notify_add_friend : AddFriendReq → M S AddFriendRsp
  unfolding get_session
  notify_add_friend req = do
    session ← get_session req.touid
    if_found session skip λ p.
        send p (J.to_styled_string (J.object (friend_notice J req)))
          (msg_number MsgId.notify_add_friend_req)
    pure (record {
      error = error_number ErrorCode.success;
      applyuid = req.applyuid;
      touid = req.touid;
    })

  -- The notification of an acceptance to the applicant `touid`.
  unfoldable pub auth_notice : AuthFriendReq → M S (Members V)
  unfolding get_base_info
  auth_notice req = do
    info ← get_base_info (user_base_key (to_string req.fromuid)) req.fromuid
    if_found info (pure (put_error J ErrorCode.uid_invalid start)) λ u. do
      peer_alias ← call (E.get_friend_alias req.touid req.fromuid)
      pure (
          put_text J "alias_name" (or_empty peer_alias) (
            put_int J "sex" u.sex (
              put_text J "icon" u.icon
                (put_text J "nick" u.nick (put_text J "name" u.name start)))))
    where
      start : Members V
      start =
          put_int J "touid" req.touid
            (put_int J "fromuid" req.fromuid (put_error J ErrorCode.success []))

  unfoldable pub notify_auth_friend : AuthFriendReq → M S AuthFriendRsp
  unfolding get_session auth_notice
  notify_auth_friend req = do
    session ← get_session req.touid
    if_found session skip λ p. do
      notice ← auth_notice req
      send p (J.to_styled_string (J.object notice)) (msg_number MsgId.notify_auth_friend_req)
    pure (record {
      error = error_number ErrorCode.success;
      fromuid = req.fromuid;
      touid = req.touid;
    })

  -- The reply has the error alone; its other fields keep their defaults.
  unfoldable pub notify_text_chat_msg : TextChatMsgReq → M S TextChatMsgRsp
  unfolding get_session
  notify_text_chat_msg req = do
    session ← get_session req.touid
    if_found session skip λ p.
        send p (J.to_styled_string (J.object (text_notice J req)))
          (msg_number MsgId.notify_text_chat_msg_req)
    pure (record {
      error = error_number ErrorCode.success;
      fromuid = pos 0;
      touid = pos 0;
      textmsgs = [];
    })
