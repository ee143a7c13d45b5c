-- ===== src/Logic/Chat.antt =====
-- src/application/LogicSystem.cpp: `chatTextMsgHandler`.
use chat_server.Base.{ℕ, ◌||◌, List, [], ◌∷◌, if◌then◌else◌}
use chat_server.Base.Int.{ℤ}
use chat_server.Base.Text.{Str, bytes, str_eq}
use chat_server.Domain.{ErrorCode, MsgId, msg_number, user_ip_key}
use chat_server.Rpc.{TextChatData}
use chat_server.Json.{Json, Members, put, int_member, text_member}
use chat_server.Profile.{put_int, put_error}
use chat_server.Services.{Services}
use chat_server.World.{M, pure, skip, or_throw, call, if_found, ◌>>=◌, ◌>>◌}
use chat_server.UserMgr.{get_session}
use chat_server.Session.{send}

module _ {V : Type 0} (J : Json V) where
  -- The object that goes back to the sender, and to a receiver on this node.
  abbrev pub text_reply : ℤ → ℤ → V → Members V
  text_reply fromuid touid text_array =
      put "text_array" text_array
        (put_int J "touid" fromuid (put_int J "fromuid" touid (put_error J ErrorCode.success [])))

module _ {S V : Type 0} (J : Json V) (E : Services S) where
  -- The loop that fills the request for another node.
  unfoldable pub text_messages : List V → M S (List TextChatData)
  text_messages [] = pure []
  text_messages (text_obj ∷ rest) = do
    content ← or_throw (text_member J text_obj "content")
    msgid ← or_throw (text_member J text_obj "msgid")
    more ← text_messages rest
    pure (record { msgid = msgid; msgcontent = content } ∷ more)

  unfoldable pub forward_text : ℤ → ℤ → V → Str → M S (Unit {0})
  unfolding text_messages get_session
  forward_text fromuid touid text_array to_ip =
      if str_eq to_ip E.self_name
      then (do
        peer ← get_session touid
        if_found peer skip λ p.
            send p (J.to_styled_string (J.object (text_reply J fromuid touid text_array)))
              (msg_number MsgId.text_chat_msg_rsp))
      else (do
        textmsgs ← text_messages (J.elements text_array)
        call (
            E.notify_text_chat_msg to_ip
              (record { fromuid = fromuid; touid = touid; textmsgs = textmsgs }))
        skip)

  unfoldable pub deliver_text : ℤ → ℤ → V → M S (Unit {0})
  unfolding forward_text
  deliver_text fromuid touid text_array = do
    to_ip ← call (E.redis_get (user_ip_key touid))
    if_found to_ip skip (forward_text fromuid touid text_array)

  unfoldable pub chat_text_msg_handler : ℕ → Str → M S (Unit {0})
  unfolding deliver_text
  chat_text_msg_handler session msg_data =
      let root = (J.parse msg_data).1 in
      if J.is_null root || J.is_empty root then skip else do
        fromuid ← or_throw (int_member J root "fromuid")
        touid ← or_throw (int_member J root "touid")
        text_array ← or_throw (J.get root (bytes "text_array"))
        deliver_text fromuid touid text_array
        send session (J.to_styled_string (J.object (text_reply J fromuid touid text_array)))
            (msg_number MsgId.text_chat_msg_rsp)
