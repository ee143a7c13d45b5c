-- ===== src/Node/Tests/Across.antt =====
-- A text from a client on one node to a client on another.
use chat_server.Base.{ℕ, ◌≡◌, ◌≢◌, ◌++◌, ap, refl, Bool, true, false, some, ◌∷◌, [], arith}
use mathlib.Core.Bool.{false≢true}
use chat_server.Base.Int.{pos}
use chat_server.Base.Text.{Str, bytes, str_eq_iff, str_key}
use chat_server.Base.Dict.{find}
use chat_server.Base.Decimal.{to_string}
use chat_server.Domain.{head_total_len, user_ip_key}
use chat_server.Rpc.{TextChatMsgReq, TextChatMsgRsp}
use chat_server.Frame.{Outcome, wire, send_node}
use chat_server.Services.{Services}
use chat_server.Pool.{Called}
use chat_server.ChatClient.{ChatStub, ChatClient, client_text_chat_msg, new_text_rsp}
use chat_server.ChatService.{notify_text_chat_msg}
use chat_server.World.{World, Reading, Purpose, update, new_session}
use chat_server.Samples.{Outside, sample_json, sample_services, sample_outside, sample_world}
use chat_server.Session.{send_text}
use chat_server.Logic.Dispatch.{Turn}
use chat_server.Node.Request.{response, received}
use chat_server.Node.Forward.{Holds}
use chat_server.Node.Across.{Serves, Calls, notice_id, text-crosses}
use chat_server.Node.Tests.Delivery.{text_doc, text_request}

-- The outside of the sender's node: a Redis, and the client that calls the other node.
record Both : Type 0 where
  redis : Outside
  client : ChatClient ℕ (World Outside)

-- A stub that runs the method, and tells a failure where that does not return.
abbrev answer :
    TextChatMsgRsp
    → Outcome TextChatMsgRsp × World Outside
    → (Bool × TextChatMsgRsp) × World Outside
answer rsp (Outcome.ok a, v) = ((true, a), v)
answer rsp (Outcome.throws, v) = ((false, rsp), v)
answer rsp (Outcome.fault, v) = ((false, rsp), v)

abbrev sample_stub : ChatStub ℕ (World Outside)
sample_stub = record {
  notify_add_friend = λ c req rsp v. ((false, rsp), v);
  notify_auth_friend = λ c req rsp v. ((false, rsp), v);
  notify_text_chat_msg =
      λ c req rsp v. answer rsp (notify_text_chat_msg (sample_json text_doc) sample_services req v);
}

sample-Serves : Serves (sample_json text_doc) sample_services sample_stub 5
sample-Serves = record { texts = λ req rsp a v v' h. ap (answer rsp) h }

abbrev on_redis : {A : Type 0} → (Outside → A × Outside) → Both → A × Both
on_redis f s = ((f s.redis).0, record s { redis = (f s.redis).1 })

abbrev told : Called TextChatMsgRsp → TextChatMsgRsp
told (Called.returned (Outcome.ok rsp)) = rsp
told _ = new_text_rsp

abbrev call_texts : Str → TextChatMsgReq → Both → TextChatMsgRsp × Both
call_texts name req s =
    let k = client_text_chat_msg sample_stub name req s.client in
    (told k.0, record s { client = k.1 })

abbrev both_services : Services Both
both_services =
    let e = sample_services in
    record {
      self_name = e.self_name;
      redis_get = λ k. on_redis (e.redis_get k);
      redis_set = λ k v. on_redis (e.redis_set k v);
      redis_h_get = λ k f. on_redis (e.redis_h_get k f);
      redis_h_set = λ k f v. on_redis (e.redis_h_set k f v);
      user_by_uid = λ uid. on_redis (e.user_by_uid uid);
      user_by_name = λ name. on_redis (e.user_by_name name);
      add_friend_apply = λ uid touid a. on_redis (e.add_friend_apply uid touid a);
      get_apply_list = λ uid from count. on_redis (e.get_apply_list uid from count);
      get_friend_apply_alias = λ from to. on_redis (e.get_friend_apply_alias from to);
      get_friend_alias = λ self friend. on_redis (e.get_friend_alias self friend);
      auth_friend_apply = λ uid touid. on_redis (e.auth_friend_apply uid touid);
      add_friend = λ a b x y. on_redis (e.add_friend a b x y);
      get_friend_list = λ uid. on_redis (e.get_friend_list uid);
      notify_add_friend = λ ip r. on_redis (e.notify_add_friend ip r);
      notify_auth_friend = λ ip r. on_redis (e.notify_auth_friend ip r);
      notify_text_chat_msg = call_texts;
    }

sample-Calls : Calls both_services sample_stub (λ s. s.client)
sample-Calls = record { texts = λ name req s rsp k h. ap (λ x. x.1) h }

-- User 8 is on session 1 of the other node.
abbrev other : World Outside
other = record sample_world { uid_to_session = (pos 8, 1) ∷ [] }

abbrev own_outside : Both
own_outside = record {
  redis = record sample_outside { texts = (bytes "uip_8", bytes "ChatServer1") ∷ [] };
  client = record {
    pools = (bytes "ChatServer1", record { connections = 5 ∷ 6 ∷ []; b_stop = false }) ∷ [];
    server = other;
  };
}

-- Session 0 of this node waits for a head.
abbrev own : World Both
own = record {
  outside = own_outside;
  sessions =
      λ p. record (new_session []) { reading = Reading.reading Purpose.head [] head_total_len };
  server_sessions = [];
  uid_to_session = [];
  msg_que = [];
}

apart : bytes "ChatServer1" ≢ bytes "ChatServer2"
apart e = false≢true ((str_eq_iff (bytes "ChatServer1") (bytes "ChatServer2")).1 e)

text-crosses_example :
    let done =
      received
        (sample_json text_doc)
        both_services
        0
        (7 ∷ 219 ∷ [])
        ((0 ∷ 2 ∷ []) ∷ [])
        (bytes "{}")
        []
        own in
    let after = done.1.outside.client in
    (done.0 ≡ Outcome.ok Turn.goes_on)
    × (done.1.msg_que ≡ [])
    × (done.1.sessions 0 ≡ send_text (bytes "{}") response (own.sessions 0))
    × ((after.server.sessions 1).writes ≡ [] ++ wire (send_node (bytes "{}") 2 notice_id) ∷ [])
    × (find (bytes "ChatServer1") after.pools
        ≡ some (record { connections = 6 ∷ 5 ∷ []; b_stop = false }))
unfolding wire send_node update to_string user_ip_key
text-crosses_example =
    text-crosses (sample_json text_doc) both_services sample_services sample_stub (λ s. s.client) 0
      1 (bytes "{}") (7 ∷ 219 ∷ []) (bytes "{}") ((0 ∷ 2 ∷ []) ∷ []) [] text_request
      (bytes "ChatServer1") (record { msgid = bytes "m"; msgcontent = bytes "hi" } ∷ []) 5 (6 ∷ [])
      _ own sample-Calls sample-Serves (omega arith) (omega arith, tt) tt refl refl refl refl refl
      apart (Holds.more _ refl refl Holds.nothing) refl refl refl refl
