-- ===== src/Logic/Tests/Login.antt =====
-- Runs of logins and of what ends them.
use chat_server.Base.{◌≡◌, refl, arith, true, false, none, some, [], ◌∷◌}
use chat_server.Base.Int.{pos}
use chat_server.Base.Text.{bytes, str_key}
use chat_server.Base.Dict.{find, int_key}
use chat_server.Base.Decimal.{stoi, to_string}
use chat_server.Domain.{MsgId, msg_number, user_token_key}
use chat_server.Frame.{Outcome}
use chat_server.Json.{Members}
use chat_server.World.{◌>>◌}
use chat_server.Samples.{
  Doc, sample_services, sample-HashLaws, sample-ReadLaws, sample_user, sample_world,
}
use chat_server.Session.{send_text, close}
use chat_server.Logic.Lookup.{nick_or_name}
use chat_server.Logic.Login.{login_handler, bind_user, count_login}
use chat_server.Logic.Presence.{counter, login_then_close}
use chat_server.Base.{false}
use chat_server.Logic.Presence.Elsewhere.{login_elsewhere_then_close}
use chat_server.Logic.Presence.Race.{count_logout, close_overwrites, login_overwrites, updates-race}
use chat_server.Logic.Accepted.{login_accepted}
use chat_server.Logic.Tests.{login_json}

login_then_close_example :
    let r = (bind_user sample_services 0 (pos 7) >> close sample_services 0) sample_world in
    (r.0 ≡ Outcome.ok tt)
    × (counter sample_services r.1 ≡ some (pos 3))
    × (find (pos 7) r.1.uid_to_session ≡ none)
    × (r.1.sessions 0 ≡ record (sample_world.sessions 0) {
      user_uid = pos 0;
      socket_open = false;
      b_close = true;
    })
unfolding stoi
login_then_close_example =
    login_then_close sample_services sample-HashLaws 0 (pos 7) 3 sample_world refl (omega arith)
      refl refl

login_elsewhere_then_close_example :
    let r =
      (bind_user sample_services 0 (pos 7)
          >> bind_user sample_services 1 (pos 7)
          >> close sample_services 0)
        sample_world in
    (r.0 ≡ Outcome.ok tt)
    × (counter sample_services r.1 ≡ some (pos 4))
    × ((r.1.sessions 1).b_close ≡ false)
    × ((r.1.sessions 1).user_uid ≡ pos 7)
    × (find (pos 7) r.1.uid_to_session ≡ none)
unfolding stoi
login_elsewhere_then_close_example =
    login_elsewhere_then_close sample_services sample-HashLaws 0 1 (pos 7) 3 sample_world
      (λ e. omega arith) refl (omega arith) refl refl refl

login_accepted_example :
    let r = login_handler login_json sample_services 0 [] sample_world in
    (r.0 ≡ Outcome.ok tt)
    × (counter sample_services r.1 ≡ some (pos 4))
    × (r.1.uid_to_session ≡ (pos 7, 0) ∷ [])
    × ((m : Members Doc) × (find (bytes "error") m ≡ some (login_json.of_int (pos 0)))
        × (find (bytes "uid") m ≡ some (login_json.of_int (pos 7)))
        × (find (bytes "nick") m ≡ some (login_json.of_string (nick_or_name sample_user).nick))
        × (r.1.sessions 0
            ≡ send_text
                (login_json.to_styled_string (login_json.object m))
                (msg_number MsgId.chat_login_rsp)
                (record (sample_world.sessions 0) { user_uid = pos 7 })))
unfolding stoi to_string user_token_key
login_accepted_example =
    login_accepted login_json sample_services sample-HashLaws sample-ReadLaws 0 [] (pos 7)
      (bytes "t0k3n") sample_user 3 sample_world refl refl refl refl refl (omega arith)

updates-race_example :
    (counter sample_services
        ((count_login sample_services >> count_logout sample_services) sample_world).1
      ≡ some (pos 3))
    × (counter sample_services (close_overwrites sample_services sample_world).1 ≡ some (pos 2))
    × (counter sample_services (login_overwrites sample_services sample_world).1 ≡ some (pos 4))
unfolding stoi
updates-race_example =
    updates-race sample_services sample-HashLaws 3 sample_world refl (omega arith) (omega arith)
