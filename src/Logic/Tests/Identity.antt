-- ===== src/Logic/Tests/Identity.antt =====
-- A request on a session of user 7, and on one without a user.
use chat_server.Base.{refl}
use chat_server.Base.Int.{pos}
use chat_server.Base.Text.{bytes}
use chat_server.World.{World, new_session}
use chat_server.World.Alike.{Alike, EndAlike}
use chat_server.Samples.{Outside, sample_json, sample_services, sample_world, login_doc}
use chat_server.Logic.Lookup.{search_user_handler}
use chat_server.Logic.Friends.{add_friend_handler, auth_friend_handler}
use chat_server.Logic.Chat.{chat_text_msg_handler}
use chat_server.Logic.Identity.{handlers-EndAlike}

abbrev logged_in : World Outside
logged_in = record sample_world {
  sessions = λ p. record (new_session (bytes "s")) { user_uid = pos 7 };
}

logged_in-Alike : Alike logged_in sample_world
logged_in-Alike = record {
  outside = refl;
  sessions = λ q. refl;
  server_sessions = refl;
  uid_to_session = refl;
  msg_que = refl;
}

handlers-EndAlike_example :
    let J = sample_json login_doc in
    let E = sample_services in
    let text = bytes "{}" in
    EndAlike
      (search_user_handler J E 0 text logged_in)
      (search_user_handler J E 0 text sample_world)
    × EndAlike
        (add_friend_handler J E 0 text logged_in)
        (add_friend_handler J E 0 text sample_world)
    × EndAlike
        (auth_friend_handler J E 0 text logged_in)
        (auth_friend_handler J E 0 text sample_world)
    × EndAlike
        (chat_text_msg_handler J E 0 text logged_in)
        (chat_text_msg_handler J E 0 text sample_world)
handlers-EndAlike_example =
    handlers-EndAlike (sample_json login_doc) sample_services logged_in sample_world logged_in-Alike
      0 (bytes "{}")
