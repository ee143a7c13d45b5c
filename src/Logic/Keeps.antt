-- ===== src/Logic/Keeps.antt =====
-- src/application/LogicSystem.cpp: what the handlers leave alone. Each lemma is about a part `f` of
-- the world apart from the services and the sessions.
use chat_server.Base.{ℕ, ◌≡◌}
use chat_server.Base.Int.{ℤ}
use chat_server.Base.Text.{Str}
use chat_server.Base.Dict.{Dict, int_key}
use chat_server.Json.{Json}
use chat_server.Services.{Services}
use chat_server.World.{World}
use chat_server.World.Keeps.{IsApart, Keeps, Keeps-set_user_session, keeps}
use chat_server.World.Built.{Any, Built-Keeps}
use chat_server.Logic.Lookup.{get_base_info, search_user_handler}
use chat_server.Logic.Login.{count_login, bind_user, accept_login, login_result, login_handler}
use chat_server.Logic.Friends.{add_friend_handler, auth_friend_handler}
use chat_server.Logic.Chat.{chat_text_msg_handler}
use chat_server.Logic.Built.{
  get_base_info-Built, search_user_handler-Built, add_friend_handler-Built,
  auth_friend_handler-Built, chat_text_msg_handler-Built,
}

module _ {S V X : Type 0} (J : Json V) (E : Services S) (f : World S → X) (h : IsApart f) where
  pub get_base_info-Keeps : (key : Str) (uid : ℤ) → Keeps f (get_base_info J E key uid)
  get_base_info-Keeps key uid =
      Built-Keeps Any (λ p. tt) f h _ (get_base_info-Built J E Any key uid)

  pub search_user_handler-Keeps :
      (p : ℕ) (msg_data : Str) → Keeps f (search_user_handler J E p msg_data)
  search_user_handler-Keeps p msg_data =
      Built-Keeps Any (λ p. tt) f h _ (search_user_handler-Built J E Any p tt msg_data)

  pub add_friend_handler-Keeps :
      (p : ℕ) (msg_data : Str) → Keeps f (add_friend_handler J E p msg_data)
  add_friend_handler-Keeps p msg_data =
      Built-Keeps Any (λ p. tt) f h _ (add_friend_handler-Built J E Any p tt msg_data)

  pub auth_friend_handler-Keeps :
      (p : ℕ) (msg_data : Str) → Keeps f (auth_friend_handler J E p msg_data)
  auth_friend_handler-Keeps p msg_data =
      Built-Keeps Any (λ p. tt) f h _ (auth_friend_handler-Built J E Any p tt msg_data)

  pub chat_text_msg_handler-Keeps :
      (p : ℕ) (msg_data : Str) → Keeps f (chat_text_msg_handler J E p msg_data)
  chat_text_msg_handler-Keeps p msg_data =
      Built-Keeps Any (λ p. tt) f h _ (chat_text_msg_handler-Built J E Any p tt msg_data)

  pub count_login-Keeps : Keeps f (count_login E)
  unfolding count_login
  count_login-Keeps = search (keeps, h) depth 12

  -- The login alone registers a session.
  module _ (users : (w : World S) (d : Dict ℤ ℕ) → f (record w { uid_to_session = d }) ≡ f w) where
    bind_user-Keeps : (p : ℕ) (uid : ℤ) → Keeps f (bind_user E p uid)
    unfolding bind_user
    bind_user-Keeps p uid =
        let bound = Keeps-set_user_session f users uid p in
        search (keeps, h, count_login-Keeps, bound) depth 12

    login_result-Keeps : (p : ℕ) (uid : ℤ) (token : Str) → Keeps f (login_result J E p uid token)
    unfolding login_result accept_login
    login_result-Keeps p uid token =
        search (keeps, h, get_base_info-Keeps, bind_user-Keeps) depth 14

    pub login_handler-Keeps : (p : ℕ) (msg_data : Str) → Keeps f (login_handler J E p msg_data)
    unfolding login_handler
    login_handler-Keeps p msg_data = search (keeps, h, login_result-Keeps) depth 10
