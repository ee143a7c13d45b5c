-- ===== src/Logic/Friends.antt =====
-- src/application/LogicSystem.cpp: `addFriendHandler` and `authFriendHandler`.
use chat_server.Base.{ℕ, [], Option, none, some, if◌then◌else◌}
use chat_server.Base.Int.{ℤ, pos}
use chat_server.Base.Text.{Str, c_str, str_eq}
use chat_server.Base.Decimal.{to_string}
use chat_server.Domain.{UserInfo, ErrorCode, MsgId, msg_number, user_base_key, user_ip_key}
use chat_server.Rpc.{AddFriendReq}
use chat_server.Json.{Json, Members, int_member, text_member}
use chat_server.Profile.{put_int, put_text, put_error}
use chat_server.Services.{Services}
use chat_server.World.{M, pure, skip, or_throw, call, if_found, ◌>>=◌, ◌>>◌}
use chat_server.UserMgr.{get_session}
use chat_server.Session.{send}
use chat_server.Logic.Lookup.{get_base_info}

-- An out-parameter of an alias query, cleared before it.
abbrev pub or_empty : Option Str → Str
or_empty none = []
or_empty (some s) = s

module _ {V : Type 0} (J : Json V) where
  -- What the applicant's data adds to a notification, or the defaults without them.
  abbrev pub put_applicant : Option UserInfo → Members V → Members V
  put_applicant none m = put_int J "sex" (pos 0) (put_text J "nick" [] (put_text J "icon" [] m))
  put_applicant (some u) m =
      put_int J "sex" u.sex (put_text J "nick" u.nick (put_text J "icon" u.icon m))

  abbrev pub add_friend_notice : ℤ → Str → Str → Option UserInfo → Members V
  add_friend_notice uid name alias_name info = put_text J "alias_name" alias_name (
      put_applicant info (
        put_text J "desc" []
          (put_text J "name" name (put_int J "applyuid" uid (put_error J ErrorCode.success [])))))

  -- The reply to the side that accepts: the data of the applicant.
  abbrev pub auth_reply : ℤ → Str → Option UserInfo → Members V
  auth_reply applicant alias_name none =
      put_error J ErrorCode.uid_invalid (put_error J ErrorCode.success [])
  auth_reply applicant alias_name (some u) = put_text J "alias_name" alias_name (
      put_int J "uid" applicant (
        put_int J "sex" u.sex (
          put_text J "icon" u.icon (
            put_text J "nick" u.nick
              (put_text J "name" u.name (put_error J ErrorCode.success []))))))

  abbrev pub auth_notice : ℤ → ℤ → Str → Option UserInfo → Members V
  auth_notice accepter applicant peer_alias info = elim info [
    | none ↦ put_error J ErrorCode.uid_invalid start
    | some u ↦ put_text J "alias_name" peer_alias (
        put_int J "sex" u.sex
          (put_text J "icon" u.icon (put_text J "nick" u.nick (put_text J "name" u.name start))))
  ]
    where
      start : Members V
      start =
          put_int J "touid" applicant
            (put_int J "fromuid" accepter (put_error J ErrorCode.success []))

-- The request that goes to another node: the fields of a user that is not found keep the defaults,
-- and two of the others end at a null byte.
abbrev pub add_friend_request : ℤ → Str → Str → ℤ → Option UserInfo → AddFriendReq
add_friend_request uid name alias_name touid none = record {
  applyuid = uid;
  name = name;
  desc = [];
  touid = touid;
  icon = [];
  sex = pos 0;
  nick = [];
  alias_name = alias_name;
}
add_friend_request uid name alias_name touid (some u) = record {
  applyuid = uid;
  name = name;
  desc = [];
  touid = touid;
  icon = c_str u.icon;
  sex = u.sex;
  nick = c_str u.nick;
  alias_name = alias_name;
}

module _ {S V : Type 0} (J : Json V) (E : Services S) where
  -- `session->send` of an object that was built, if there is a session.
  unfoldable pub send_to_user : ℤ → MsgId → M S (Members V) → M S (Unit {0})
  unfolding get_session
  send_to_user uid msg_id notice = do
    peer ← get_session uid
    if_found peer skip
        λ p. do m ← notice; send p (J.to_styled_string (J.object m)) (msg_number msg_id)

  -- The notification of an application, to the node that Redis names.
  unfoldable pub notify_applied : ℤ → Str → Str → ℤ → Str → M S (Unit {0})
  unfolding get_base_info send_to_user
  notify_applied uid name alias_name touid to_ip = do
    info ← get_base_info J E (user_base_key (to_string uid)) uid
    if str_eq to_ip E.self_name
        then send_to_user touid MsgId.notify_add_friend_req
            (pure (add_friend_notice J uid name alias_name info))
        else (do
          call (E.notify_add_friend to_ip (add_friend_request uid name alias_name touid info))
          skip)

  unfoldable pub apply_friend : ℤ → Str → Str → ℤ → M S (Unit {0})
  unfolding notify_applied
  apply_friend uid name alias_name touid = do
    call (E.add_friend_apply uid touid alias_name)
    to_ip ← call (E.redis_get (user_ip_key touid))
    if_found to_ip skip (notify_applied uid name alias_name touid)

  unfoldable pub add_friend_handler : ℕ → Str → M S (Unit {0})
  unfolding apply_friend
  add_friend_handler session msg_data =
      let root = (J.parse msg_data).1 in
      do
        uid ← or_throw (int_member J root "uid")
        name ← or_throw (text_member J root "apply_name")
        alias_name ← or_throw (text_member J root "alias_name")
        touid ← or_throw (int_member J root "touid")
        apply_friend uid name alias_name touid
        send session (J.to_styled_string (J.object (put_error J ErrorCode.success [])))
            (msg_number MsgId.add_friend_rsp)

  -- The notification of an acceptance, to the node of the applicant.
  unfoldable pub notify_accepted : ℤ → ℤ → Str → Str → M S (Unit {0})
  unfolding send_to_user get_base_info
  notify_accepted accepter applicant peer_alias to_ip =
      if str_eq to_ip E.self_name
      then send_to_user applicant MsgId.notify_auth_friend_req (do
        info ← get_base_info J E (user_base_key (to_string accepter)) accepter
        pure (auth_notice J accepter applicant peer_alias info))
      else (do
        call (E.notify_auth_friend to_ip (record { fromuid = accepter; touid = applicant }))
        skip)

  -- The writes of an acceptance, and the alias that the applicant gets to see.
  unfoldable pub make_friends : ℤ → ℤ → Str → M S Str
  make_friends applicant accepter alias_name = do
    applied_alias ← call (E.get_friend_apply_alias applicant accepter)
    call (E.auth_friend_apply applicant accepter)
    call (E.add_friend applicant accepter (or_empty applied_alias) alias_name)
    peer_alias ← call (E.get_friend_alias applicant accepter)
    pure (or_empty peer_alias)

  unfoldable pub auth_friend_handler : ℕ → Str → M S (Unit {0})
  unfolding get_base_info make_friends notify_accepted
  auth_friend_handler session msg_data =
      let root = (J.parse msg_data).1 in
      do
        applicant ← or_throw (int_member J root "fromuid")
        accepter ← or_throw (int_member J root "touid")
        alias_name ← or_throw (text_member J root "alias_name")
        info ← get_base_info J E (user_base_key (to_string applicant)) applicant
        peer_alias ← make_friends applicant accepter alias_name
        to_ip ← call (E.redis_get (user_ip_key applicant))
        if_found to_ip skip (notify_accepted accepter applicant peer_alias)
        send session (J.to_styled_string (J.object (auth_reply J applicant alias_name info)))
            (msg_number MsgId.auth_friend_rsp)
