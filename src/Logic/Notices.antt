-- ===== src/Logic/Notices.antt =====
-- src/application/LogicSystem.cpp with src/application/ChatServiceImpl.cpp: a user on this node and
-- one on another node are sent a text by two pieces of code. What each of them sends is compared here.
use chat_server.Session.Sent.{send-sent}
use chat_server.Base.{ℕ, ◌≡◌, refl, true, some}
use chat_server.Base.Text.{str_eq, str_key}
use chat_server.Base.Dict.{int_key, find, beq_refl}
use chat_server.Domain.{MsgId, msg_number}
use chat_server.Rpc.{TextChatMsgReq}
use chat_server.Json.{Json, JsonLaws, int_member}
use chat_server.Services.{Services}
use chat_server.World.{World}
use chat_server.UserMgr.{get_session}
use chat_server.Session.{send}
use chat_server.Logic.Chat.{forward_text, text_reply}
use chat_server.ChatService.{notify_text_chat_msg, text_notice}

module _ {S V : Type 0} (J : Json V) (E : Services S) where
  -- Let the JSON library give back what an object was made of (JsonLaws), and let a user be logged
  -- in on this node. A text for him from a user on this node is sent on his session as
  -- TEXT_CHAT_MSG_RSP, with the receiver as `fromuid`; a text from another node is sent on it as
  -- NOTIFY_TEXT_CHAT_MSG_REQ, with the sender as `fromuid`.
  pub text_notices :
      (laws : JsonLaws J) (p : ℕ) (text_array : V) (req : TextChatMsgReq) (w : World S)
      → find req.touid w.uid_to_session ≡ some p
      → let own = J.object (text_reply J req.fromuid req.touid text_array) in
        let others = J.object (text_notice J req) in
        (forward_text J E req.fromuid req.touid text_array E.self_name w
          ≡ send p (J.to_styled_string own) (msg_number MsgId.text_chat_msg_rsp) w)
        × (int_member J own "fromuid" ≡ some req.touid)
        × ((notify_text_chat_msg J E req w).1
            ≡ (send p (J.to_styled_string others) (msg_number MsgId.notify_text_chat_msg_req) w).1)
        × (int_member J others "fromuid" ≡ some req.fromuid)
  unfolding forward_text notify_text_chat_msg get_session
  text_notices laws p text_array req w e = (
    rw (own_node, e),
    rw (laws.get-object, laws.as_int-of_int),
    rw (e, send-sent) refl,
    rw (laws.get-object, laws.as_int-of_int),
  )
    where
      own_node : str_eq E.self_name E.self_name ≡ true
      own_node = beq_refl E.self_name
