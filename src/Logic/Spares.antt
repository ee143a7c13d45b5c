-- ===== src/Logic/Spares.antt =====
-- src/application/LogicSystem.cpp: what the handlers do not touch. Each lemma is about a session
-- `q` in the state `s` that is not the session of the message and that no user is logged in on.
use chat_server.Base.{ℕ, ◌≢◌}
use chat_server.Base.Int.{ℤ}
use chat_server.Base.Text.{Str}
use chat_server.Base.Dict.{int_key}
use chat_server.Json.{Json}
use chat_server.Services.{Services}
use chat_server.World.{Session}
use chat_server.World.Spares.{Spares, spares}
use chat_server.World.Built.{Built-Spares}
use chat_server.Logic.Lookup.{get_base_info, search_user_handler}
use chat_server.Logic.Login.{count_login, bind_user, accept_login, login_result, login_handler}
use chat_server.Logic.Friends.{add_friend_handler, auth_friend_handler}
use chat_server.Logic.Chat.{chat_text_msg_handler}
use chat_server.Logic.Built.{
  get_base_info-Built, search_user_handler-Built, add_friend_handler-Built,
  auth_friend_handler-Built, chat_text_msg_handler-Built,
}

module _ {S V : Type 0} (J : Json V) (E : Services S) (q : ℕ) (s : Session) where
  abbrev Other : ℕ → Type 0
  Other p = p ≢ q

  get_base_info-Spares : (key : Str) (uid : ℤ) → Spares S q s (get_base_info J E key uid)
  get_base_info-Spares key uid = Built-Spares q s _ (get_base_info-Built J E Other key uid)

  pub search_user_handler-Spares :
      (p : ℕ) → p ≢ q → (msg_data : Str) → Spares S q s (search_user_handler J E p msg_data)
  search_user_handler-Spares p ne msg_data =
      Built-Spares q s _ (search_user_handler-Built J E Other p ne msg_data)

  pub add_friend_handler-Spares :
      (p : ℕ) → p ≢ q → (msg_data : Str) → Spares S q s (add_friend_handler J E p msg_data)
  add_friend_handler-Spares p ne msg_data =
      Built-Spares q s _ (add_friend_handler-Built J E Other p ne msg_data)

  pub auth_friend_handler-Spares :
      (p : ℕ) → p ≢ q → (msg_data : Str) → Spares S q s (auth_friend_handler J E p msg_data)
  auth_friend_handler-Spares p ne msg_data =
      Built-Spares q s _ (auth_friend_handler-Built J E Other p ne msg_data)

  pub chat_text_msg_handler-Spares :
      (p : ℕ) → p ≢ q → (msg_data : Str) → Spares S q s (chat_text_msg_handler J E p msg_data)
  chat_text_msg_handler-Spares p ne msg_data =
      Built-Spares q s _ (chat_text_msg_handler-Built J E Other p ne msg_data)

  pub count_login-Spares : Spares S q s (count_login E)
  unfolding count_login
  count_login-Spares = search (spares) depth 12

  bind_user-Spares : (p : ℕ) → p ≢ q → (uid : ℤ) → Spares S q s (bind_user E p uid)
  unfolding bind_user
  bind_user-Spares p ne uid = search (spares, ne, count_login-Spares) depth 12

  login_result-Spares :
      (p : ℕ) → p ≢ q → (uid : ℤ) (token : Str) → Spares S q s (login_result J E p uid token)
  unfolding login_result accept_login
  login_result-Spares p ne uid token =
      search (spares, ne, get_base_info-Spares, bind_user-Spares) depth 14

  pub login_handler-Spares :
      (p : ℕ) → p ≢ q → (msg_data : Str) → Spares S q s (login_handler J E p msg_data)
  unfolding login_handler
  login_handler-Spares p ne msg_data = search (spares, ne, login_result-Spares) depth 10
