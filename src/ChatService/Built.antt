-- ===== src/ChatService/Built.antt =====
-- src/application/ChatServiceImpl.cpp: how the calls of other nodes are built.
use chat_server.Base.{ℕ}
use chat_server.Base.Int.{ℤ}
use chat_server.Base.Text.{Str}
use chat_server.Base.Dict.{int_key}
use chat_server.Rpc.{AddFriendReq, AuthFriendReq, TextChatMsgReq}
use chat_server.Json.{Json}
use chat_server.Services.{Services}
use chat_server.World.Built.{Built, built}
use chat_server.ChatService.{
  query_user, get_base_info, notify_add_friend, auth_notice, notify_auth_friend,
  notify_text_chat_msg,
}

module _ {S V : Type 0} (J : Json V) (E : Services S) (Ok : ℕ → Type 0) where
  get_base_info-Built : (key : Str) (uid : ℤ) → Built S Ok _ (get_base_info J E key uid)
  unfolding get_base_info query_user
  get_base_info-Built key uid = search built depth 12

  auth_notice-Built : (req : AuthFriendReq) → Built S Ok _ (auth_notice J E req)
  unfolding auth_notice
  auth_notice-Built req = search (built, get_base_info-Built) depth 12

  pub notify_add_friend-Built : (req : AddFriendReq) → Built S Ok _ (notify_add_friend J E req)
  unfolding notify_add_friend
  notify_add_friend-Built req = search built depth 8

  pub notify_auth_friend-Built : (req : AuthFriendReq) → Built S Ok _ (notify_auth_friend J E req)
  unfolding notify_auth_friend
  notify_auth_friend-Built req = search (built, auth_notice-Built) depth 10

  pub notify_text_chat_msg-Built :
      (req : TextChatMsgReq) → Built S Ok _ (notify_text_chat_msg J E req)
  unfolding notify_text_chat_msg
  notify_text_chat_msg-Built req = search built depth 8
