-- ===== src/Logic/Tests.antt =====
-- Runs of the worker and of its handlers.
mod Login
mod Identity
use chat_server.Base.{◌≡◌, ◌≢◌, refl, arith, true, false, none, some, [], ◌∷◌, ◌⊎◌}
use chat_server.Base.Int.{ℤ, pos}
use chat_server.Base.Text.{bytes, str_key}
use chat_server.Base.Dict.{find, int_key}
use chat_server.Base.Decimal.{stoi, to_string}
use chat_server.Domain.{ErrorCode, MsgId, msg_number, user_token_key, user_base_key}
use chat_server.Frame.{Outcome, message_text}
use chat_server.Rpc.{TextChatMsgReq}
use chat_server.Json.{Json, Members, int_member}
use chat_server.Profile.{put_error, put_profile, read_profile}
use chat_server.World.{World, LogicNode, ◌>>◌}
use chat_server.Samples.{
  Doc, Docs, Outside, sample_json, sample_laws, sample_services, sample-HashLaws, sample-ReadLaws,
  sample-TextLaws, sample_user, sample_world, login_doc,
}
use chat_server.Session.{send_text, send, close}
use chat_server.Logic.Lookup.{nick_or_name, get_user_by_uid}
use chat_server.Logic.Login.{login_handler, bind_user}
use chat_server.Logic.Friends.{add_friend_notice, add_friend_request}
use chat_server.Logic.Chat.{forward_text, text_reply}
use chat_server.ChatService.{friend_notice, notify_text_chat_msg, text_notice}
use chat_server.Logic.Dispatch.{Turn, fun_callbacks, deal_one, drain, deal_turn, pop_message}
use chat_server.Logic.Worker.{left, deal_one-queue}
use chat_server.Logic.Authentic.{Binds}
use chat_server.Logic.Requests.{deal_one-authentic}
use chat_server.Logic.Accepted.{login_accepted}
use chat_server.Logic.Cache.{profile, search_twice}
use chat_server.Logic.Notices.{text_notices}
use chat_server.Logic.Bystander.{drain-bystander}

-- A message of session 0, of no bytes.
abbrev message : ℤ → LogicNode
message msg_id = record {
  session = 0;
  recv_node = record {
    msg_id = msg_id;
    node = record { cur_len = pos 0; total_len = pos 0; content = 0 ∷ [] };
  };
}

abbrev login_json : Json Doc
login_json = sample_json login_doc

-- The world with two messages in the queue.
abbrev queued : World Outside
queued = record sample_world { msg_que = message (pos 9) ∷ message (pos 2001) ∷ [] }

deal_one-queue_example :
    (deal_one (fun_callbacks login_json sample_services) (message (pos 9)) queued).1.msg_que
    ≡ left
        (deal_one (fun_callbacks login_json sample_services) (message (pos 9)) queued).0
        queued.msg_que
deal_one-queue_example = deal_one-queue login_json sample_services (message (pos 9)) queued

-- Two messages without a callback, behind which the worker stops.
abbrev stopping : World Outside
stopping = record sample_world { msg_que = message (pos 9) ∷ message (pos 10) ∷ [] }

-- A request with another token than the one in Redis.
abbrev forged : Json Doc
forged = sample_json (
    Doc.obj (
      Docs.cons (bytes "uid") (Doc.num (pos 7))
        (Docs.cons (bytes "token") (Doc.text (bytes "guess")) Docs.nil)))

deal_one-authentic_example :
    ((deal_one
        (fun_callbacks login_json sample_services)
        (message (pos 2001))
        sample_world).1.uid_to_session
      ≡ sample_world.uid_to_session)
    ⊎ (((message (pos 2001)).recv_node.msg_id ≡ msg_number MsgId.chat_login)
        × Binds login_json sample_services 0
            (message_text (message (pos 2001)).recv_node)
            sample_world
            (deal_one
              (fun_callbacks login_json sample_services)
              (message (pos 2001))
              sample_world).1)
deal_one-authentic_example =
    deal_one-authentic login_json sample_services (message (pos 2001)) sample_world

-- A reader of the one text that is stored here, the copy of the user.
abbrev copied : Doc
copied = login_json.object (put_profile login_json sample_user [])

abbrev copy_json : Json Doc
copy_json = sample_json copied

search_twice_example :
    let first = get_user_by_uid copy_json sample_services (bytes "7") sample_world in
    (first.0 ≡ Outcome.ok (put_error copy_json ErrorCode.success []))
    × ((get_user_by_uid copy_json sample_services (bytes "7") first.1).0
        ≡ Outcome.ok (
            put_profile copy_json (profile sample_user) (put_error copy_json ErrorCode.success [])))
unfolding stoi user_base_key
search_twice_example =
    search_twice copy_json sample_services (sample_laws copied) sample-TextLaws (bytes "7") (pos 7)
      sample_user sample_world refl refl refl refl

-- A text from user 7 to user 8, who is logged in on session 1.
abbrev sample_request : TextChatMsgReq
sample_request = record { fromuid = pos 7; touid = pos 8; textmsgs = [] }

abbrev receiving : World Outside
receiving = record sample_world { uid_to_session = (pos 8, 1) ∷ [] }

text_notices_example :
    let own = login_json.object (text_reply login_json (pos 7) (pos 8) Doc.null) in
    let others = login_json.object (text_notice login_json sample_request) in
    (forward_text login_json sample_services
        (pos 7)
        (pos 8)
        Doc.null
        sample_services.self_name
        receiving
      ≡ send 1 (login_json.to_styled_string own) (msg_number MsgId.text_chat_msg_rsp) receiving)
    × (int_member login_json own "fromuid" ≡ some (pos 8))
    × ((notify_text_chat_msg login_json sample_services sample_request receiving).1
        ≡ (send 1
            (login_json.to_styled_string others)
            (msg_number MsgId.notify_text_chat_msg_req)
            receiving).1)
    × (int_member login_json others "fromuid" ≡ some (pos 7))
text_notices_example =
    text_notices login_json sample_services (sample_laws login_doc) 1 Doc.null sample_request
      receiving refl

drain-bystander_example :
    let w' = (drain (fun_callbacks login_json sample_services) queued.msg_que queued).1 in
    (w'.sessions 1 ≡ queued.sessions 1) × ((uid : ℤ) → find uid w'.uid_to_session ≢ some 1)
drain-bystander_example =
    drain-bystander login_json sample_services 1 queued.msg_que queued
      (λ e. ground arith, (λ e. ground arith, tt)) (λ uid e. ground arith)
