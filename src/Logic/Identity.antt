-- ===== src/Logic/Identity.antt =====
-- src/application/LogicSystem.cpp: the handlers behind the login do not look at the user of the
-- session that a request came on.
use chat_server.Base.{ℕ}
use chat_server.Base.Text.{Str}
use chat_server.Json.{Json}
use chat_server.Services.{Services}
use chat_server.World.{World, M}
use chat_server.World.Built.{Any, Built}
use chat_server.World.Alike.{Alike, EndAlike, Ignores-at, Built-Ignores}
use chat_server.Logic.Lookup.{search_user_handler}
use chat_server.Logic.Friends.{add_friend_handler, auth_friend_handler}
use chat_server.Logic.Chat.{chat_text_msg_handler}
use chat_server.Logic.Built.{
  search_user_handler-Built, add_friend_handler-Built, auth_friend_handler-Built,
  chat_text_msg_handler-Built,
}

module _ {S V : Type 0} (J : Json V) (E : Services S) (w w' : World S) (alike : Alike w w') where
  end_alike : {A : Type 0} (m : M S A) → Built S Any A m → EndAlike (m w) (m w')
  end_alike m b = Ignores-at S m (Built-Ignores S m b) w w' alike

  -- Let two worlds be the same but for the users that are set on the sessions (Alike). Then each of
  -- the four handlers behind the login, given the same session and the same text, ends the same way
  -- in both, and the worlds after it are again the same but for those users: what a handler does,
  -- sends and asks of Redis, MySQL and the other nodes depends on the uids that the text claims, and
  -- not on who is logged in on the session, if anybody is.
  pub handlers-EndAlike :
      (p : ℕ) (msg_data : Str)
      → EndAlike (search_user_handler J E p msg_data w) (search_user_handler J E p msg_data w')
        × EndAlike (add_friend_handler J E p msg_data w) (add_friend_handler J E p msg_data w')
        × EndAlike (auth_friend_handler J E p msg_data w) (auth_friend_handler J E p msg_data w')
        × EndAlike
            (chat_text_msg_handler J E p msg_data w)
            (chat_text_msg_handler J E p msg_data w')
  handlers-EndAlike p msg_data = (
    end_alike _ (search_user_handler-Built J E Any p tt msg_data),
    end_alike _ (add_friend_handler-Built J E Any p tt msg_data),
    end_alike _ (auth_friend_handler-Built J E Any p tt msg_data),
    end_alike _ (chat_text_msg_handler-Built J E Any p tt msg_data),
  )
