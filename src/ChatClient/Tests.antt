-- ===== src/ChatClient/Tests.antt =====
-- A node with two peers, of which it calls one.
use chat_server.Base.{ℕ, ◌≡◌, refl, false, [], ◌∷◌}
use chat_server.Base.Int.{pos}
use chat_server.Base.Text.{Str, bytes, str_key}
use chat_server.Base.Dict.{find}
use chat_server.Frame.{Outcome}
use chat_server.Rpc.{AddFriendReq, AuthFriendReq, TextChatMsgReq}
use chat_server.Pool.{Called}
use chat_server.Config.{ConfigMap, config_value, section_data, config_section}
use chat_server.ChatClient.{
  ChatStub, ChatClient, new_auth_rsp, new_text_rsp, client_add_friend, client_auth_friend,
  client_text_chat_msg, connect_peers,
}
use chat_server.ChatClient.Peers.{last_peer, connect_peers-find}
use chat_server.ChatClient.Replies.{add_told, auth_told, text_told, calls-replies}

-- A stub whose calls fail.
abbrev sample_stub : ChatStub ℕ ℕ
sample_stub = record {
  notify_add_friend = λ c req rsp s. ((false, rsp), s);
  notify_auth_friend = λ c req rsp s. ((false, rsp), s);
  notify_text_chat_msg = λ c req rsp s. ((false, rsp), s);
}

abbrev sample_client : ChatClient ℕ ℕ
sample_client = record {
  pools = (bytes "b", record { connections = 1 ∷ 2 ∷ []; b_stop = false }) ∷ [];
  server = 0;
}

abbrev add : AddFriendReq
add = record {
  applyuid = pos 1;
  name = [];
  desc = [];
  touid = pos 2;
  icon = [];
  sex = pos 0;
  nick = [];
  alias_name = [];
}

abbrev auth : AuthFriendReq
auth = record { fromuid = pos 1; touid = pos 2 }

abbrev text : TextChatMsgReq
text = record {
  fromuid = pos 1;
  touid = pos 2;
  textmsgs = record { msgid = bytes "1"; msgcontent = bytes "hi" } ∷ [];
}

calls-replies_example :
    ((client_add_friend sample_stub (bytes "b") add sample_client).0
      ≡ Called.returned (Outcome.ok (add_told add)))
    × ((client_auth_friend sample_stub (bytes "b") auth sample_client).0
        ≡ Called.returned (Outcome.ok (auth_told auth false new_auth_rsp)))
    × ((client_text_chat_msg sample_stub (bytes "b") text sample_client).0
        ≡ Called.returned (Outcome.ok (text_told text false new_text_rsp)))
calls-replies_example =
    calls-replies sample_stub (bytes "b") add auth text sample_client 1 (2 ∷ []) refl

-- The servers `s1` and `s2`, of which the second has no section.
abbrev sample_config : ConfigMap
sample_config =
    (bytes "PeerServer", (bytes "Servers", bytes "s1,s2") ∷ [])
    ∷ (
      bytes "s1",
      (bytes "Name", bytes "b") ∷ (bytes "Host", bytes "h") ∷ (bytes "Port", bytes "1") ∷ [],
    )
    ∷ []

abbrev stub_of : Str → ℕ → Str × ℕ
stub_of target i = (target, i)

connect_peers-find_example :
    find (bytes "b") (connect_peers stub_of sample_config)
    ≡ last_peer stub_of sample_config (bytes "b") (bytes "s1" ∷ bytes "s2" ∷ [])
unfolding config_value section_data config_section
connect_peers-find_example =
    connect_peers-find stub_of sample_config (bytes "s1" ∷ bytes "s2" ∷ []) (bytes "b")
      (
        record { ne_empty = refl; no_comma = (refl, (refl, tt)) },
        (record { ne_empty = refl; no_comma = (refl, (refl, tt)) }, tt),
      )
      refl
