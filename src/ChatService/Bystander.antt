-- ===== src/ChatService/Bystander.antt =====
-- src/application/ChatServiceImpl.cpp: what a call of another node does to a connection on which
-- its addressee is not logged in.
use chat_server.Base.{ℕ, ◌≡◌, ◌≢◌, refl, some}
use chat_server.Base.Int.{ℤ}
use chat_server.Base.Dict.{find, int_key}
use chat_server.Rpc.{AddFriendReq, AuthFriendReq, TextChatMsgReq}
use chat_server.Json.{Json}
use chat_server.Services.{Services}
use chat_server.World.{World, Session}
use chat_server.World.Spares.{Spares, Spares-at}
use chat_server.World.Built.{Built-Spares}
use chat_server.ChatService.Built.{
  notify_add_friend-Built, notify_auth_friend-Built, notify_text_chat_msg-Built,
}
use chat_server.ChatService.{notify_add_friend, notify_auth_friend, notify_text_chat_msg}

module _ {S V : Type 0} (J : Json V) (E : Services S) (q : ℕ) (s : Session) where
  abbrev Other : ℕ → Type 0
  Other p = p ≢ q

  notify_add_friend-Spares : (req : AddFriendReq) → Spares S q s (notify_add_friend J E req)
  notify_add_friend-Spares req = Built-Spares q s _ (notify_add_friend-Built J E Other req)

  notify_auth_friend-Spares : (req : AuthFriendReq) → Spares S q s (notify_auth_friend J E req)
  notify_auth_friend-Spares req = Built-Spares q s _ (notify_auth_friend-Built J E Other req)

  notify_text_chat_msg-Spares : (req : TextChatMsgReq) → Spares S q s (notify_text_chat_msg J E req)
  notify_text_chat_msg-Spares req = Built-Spares q s _ (notify_text_chat_msg-Built J E Other req)

module _ {S V : Type 0} (J : Json V) (E : Services S) where
  -- Let no user be logged in on a session. Then none of the three calls that another node can make
  -- changes the session, whatever the requests hold, and however the calls end.
  calls-bystander :
      (q : ℕ) (added : AddFriendReq) (accepted : AuthFriendReq) (texts : TextChatMsgReq)
      (w : World S)
      → ((uid : ℤ) → find uid w.uid_to_session ≢ some q)
      → ((notify_add_friend J E added w).1.sessions q ≡ w.sessions q)
        × ((notify_auth_friend J E accepted w).1.sessions q ≡ w.sessions q)
        × ((notify_text_chat_msg J E texts w).1.sessions q ≡ w.sessions q)
  calls-bystander q added accepted texts w free = (
    (Spares-at S q (w.sessions q) _ (notify_add_friend-Spares J E q (w.sessions q) added) w
        (refl, free)).0,
    (Spares-at S q (w.sessions q) _ (notify_auth_friend-Spares J E q (w.sessions q) accepted) w
        (refl, free)).0,
    (Spares-at S q (w.sessions q) _ (notify_text_chat_msg-Spares J E q (w.sessions q) texts) w
        (refl, free)).0,
  )
