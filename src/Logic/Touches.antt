-- ===== src/Logic/Touches.antt =====
-- src/application/LogicSystem.cpp: how the handlers touch the sessions.
use chat_server.Base.{ℕ}
use chat_server.Base.Int.{ℤ}
use chat_server.Base.Text.{Str}
use chat_server.Base.Dict.{int_key}
use chat_server.Json.{Json}
use chat_server.Services.{Services}
use chat_server.Session.Moves.{Touches, touches}
use chat_server.World.Built.{Any, Built-Touches}
use chat_server.Logic.Lookup.{get_base_info, search_user_handler}
use chat_server.Logic.Login.{count_login, bind_user, accept_login, login_result, login_handler}
use chat_server.Logic.Friends.{add_friend_handler, auth_friend_handler}
use chat_server.Logic.Chat.{chat_text_msg_handler}
use chat_server.Logic.Built.{
  get_base_info-Built, search_user_handler-Built, add_friend_handler-Built,
  auth_friend_handler-Built, chat_text_msg_handler-Built,
}

module _ {S V : Type 0} (J : Json V) (E : Services S) where
  get_base_info-Touches : (key : Str) (uid : ℤ) → Touches S (get_base_info J E key uid)
  get_base_info-Touches key uid =
      Built-Touches Any (λ p. tt) _ (get_base_info-Built J E Any key uid)

  pub search_user_handler-Touches :
      (p : ℕ) (msg_data : Str) → Touches S (search_user_handler J E p msg_data)
  search_user_handler-Touches p msg_data =
      Built-Touches Any (λ p. tt) _ (search_user_handler-Built J E Any p tt msg_data)

  pub add_friend_handler-Touches :
      (p : ℕ) (msg_data : Str) → Touches S (add_friend_handler J E p msg_data)
  add_friend_handler-Touches p msg_data =
      Built-Touches Any (λ p. tt) _ (add_friend_handler-Built J E Any p tt msg_data)

  pub auth_friend_handler-Touches :
      (p : ℕ) (msg_data : Str) → Touches S (auth_friend_handler J E p msg_data)
  auth_friend_handler-Touches p msg_data =
      Built-Touches Any (λ p. tt) _ (auth_friend_handler-Built J E Any p tt msg_data)

  pub chat_text_msg_handler-Touches :
      (p : ℕ) (msg_data : Str) → Touches S (chat_text_msg_handler J E p msg_data)
  chat_text_msg_handler-Touches p msg_data =
      Built-Touches Any (λ p. tt) _ (chat_text_msg_handler-Built J E Any p tt msg_data)

  pub count_login-Touches : Touches S (count_login E)
  unfolding count_login
  count_login-Touches = search (touches) depth 12

  bind_user-Touches : (p : ℕ) (uid : ℤ) → Touches S (bind_user E p uid)
  unfolding bind_user
  bind_user-Touches p uid = search (touches, count_login-Touches) depth 12

  login_result-Touches : (p : ℕ) (uid : ℤ) (token : Str) → Touches S (login_result J E p uid token)
  unfolding login_result accept_login
  login_result-Touches p uid token =
      search (touches, get_base_info-Touches, bind_user-Touches) depth 14

  pub login_handler-Touches : (p : ℕ) (msg_data : Str) → Touches S (login_handler J E p msg_data)
  unfolding login_handler
  login_handler-Touches p msg_data = search (touches, login_result-Touches) depth 10
