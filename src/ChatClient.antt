-- ===== src/ChatClient.antt =====
-- src/infra/grpc/ChatGrpcClient.cpp: the calls of the other chat nodes, each over a pool of stubs.
-- gRPC is an argument, and so is the state `S` of the nodes behind it.
pub mod Peers
pub mod Replies
mod Tests
use chat_server.Base.{ℕ, Bool, true, List, [], ◌∷◌, ◌++◌, ◌==◌, Option, none, some, if◌then◌else◌}
use chat_server.Base.Int.{ℤ, pos}
use chat_server.Base.Text.{Str, bytes, is_empty, str_key}
use chat_server.Base.Dict.{Dict, find, assign}
use chat_server.Domain.{UserInfo, ErrorCode, error_number}
use chat_server.Frame.{Outcome}
use chat_server.Rpc.{
  AddFriendReq, AddFriendRsp, AuthFriendReq, AuthFriendRsp, TextChatMsgReq, TextChatMsgRsp,
}
use chat_server.Pool.{Pool, Got, Called, new_pool, get_connection, return_connection}
use chat_server.Config.{ConfigMap, config_value}

-- A call of a stub: whether the status is ok, and the response after it, which is the one before it
-- where the call writes none.
pub record ChatStub (C S : Type 0) : Type 0 where
  pub notify_add_friend : C → AddFriendReq → AddFriendRsp → S → (Bool × AddFriendRsp) × S
  pub notify_auth_friend : C → AuthFriendReq → AuthFriendRsp → S → (Bool × AuthFriendRsp) × S
  pub notify_text_chat_msg : C → TextChatMsgReq → TextChatMsgRsp → S → (Bool × TextChatMsgRsp) × S

-- `_pools`, with the state of the nodes.
pub record ChatClient (C S : Type 0) : Type 0 where
  pub pools : Dict Str (Pool C)
  pub server : S

-- `std::getline(ss, word, ',')` until it fails, from the bytes of the word so far: at the end of the
-- stream it gives the last word only if there is a byte in it.
unfoldable pub words_from : Str → Str → List Str
words_from word [] = if is_empty word then [] else word ∷ []
words_from word (b ∷ s) =
    let closed = word ∷ words_from [] s in
    let longer = words_from (word ++ b ∷ []) s in if b == 44 then closed else longer

module _ {C : Type 0} (new_stub : Str → ℕ → C) (config : ConfigMap) where
  -- `host + ":" + port`, and five stubs over it.
  abbrev pub peer_pool : Str → Pool C
  peer_pool word = new_pool 5 (
      new_stub (
        config_value word (bytes "Host") config
        ++ bytes ":"
        ++ config_value word (bytes "Port") config))

  -- The loop over the words; a section without a name is left out.
  unfoldable pub add_peers : List Str → Dict Str (Pool C) → Dict Str (Pool C)
  add_peers [] pools = pools
  add_peers (word ∷ rest) pools =
      let name = config_value word (bytes "Name") config in
      add_peers rest (if is_empty name then pools else assign name (peer_pool word) pools)

  -- The constructor, up to the state of the nodes.
  unfoldable pub connect_peers : Dict Str (Pool C)
  unfolding words_from add_peers
  connect_peers =
      add_peers (words_from [] (config_value (bytes "PeerServer") (bytes "Servers") config)) []

module _ {C S : Type 0} where
  -- The course of a call: without a pool of that name the response is as it is; a null stub is
  -- dereferenced. `return rsp` builds the caller's response in place, so that the `Defer`, which runs
  -- after it, still changes it; the connection has gone back before.
  abbrev pub call_peer :
      {Req Rsp : Type 0}
      → (C → Req → Rsp → S → (Bool × Rsp) × S)
      → (Rsp → Rsp)
      → (Rsp → Rsp)
      → Str
      → Req
      → Rsp
      → ChatClient C S
      → Called Rsp × ChatClient C S
  call_peer call failed defer server_ip req rsp k = elim (find server_ip k.pools) [
    | none ↦ (Called.returned (Outcome.ok (defer rsp)), k)
    | some pool ↦
        let (taken, rest) = get_connection pool in
        elim taken [
          | Got.waits ↦ (Called.blocks, k)
          | Got.nullptr ↦ (Called.returned Outcome.fault, k)
          | Got.got stub ↦
              let answer = call stub req rsp k.server in
              (
                Called.returned
                    (Outcome.ok (defer (if answer.0.0 then answer.0.1 else failed answer.0.1))),
                record {
                  pools = assign server_ip (return_connection stub rest) k.pools;
                  server = answer.1;
                },
              )
        ]
  ]

-- The responses at the start, what their `Defer`s set, and the error of a status that is not ok.
abbrev pub new_add_rsp : AddFriendRsp
new_add_rsp = record { error = pos 0; applyuid = pos 0; touid = pos 0 }

abbrev pub defer_add : AddFriendReq → AddFriendRsp → AddFriendRsp
defer_add req rsp = record {
  error = error_number ErrorCode.success;
  applyuid = req.applyuid;
  touid = req.touid;
}

abbrev pub fail_add : AddFriendRsp → AddFriendRsp
fail_add rsp = record rsp { error = error_number ErrorCode.rpc_failed }

abbrev pub new_auth_rsp : AuthFriendRsp
new_auth_rsp = record { error = error_number ErrorCode.success; fromuid = pos 0; touid = pos 0 }

abbrev pub defer_auth : AuthFriendReq → AuthFriendRsp → AuthFriendRsp
defer_auth req rsp = record rsp { fromuid = req.fromuid; touid = req.touid }

abbrev pub fail_auth : AuthFriendRsp → AuthFriendRsp
fail_auth rsp = record rsp { error = error_number ErrorCode.rpc_failed }

abbrev pub new_text_rsp : TextChatMsgRsp
new_text_rsp = record {
  error = error_number ErrorCode.success;
  fromuid = pos 0;
  touid = pos 0;
  textmsgs = [];
}

abbrev pub defer_text : TextChatMsgReq → TextChatMsgRsp → TextChatMsgRsp
defer_text req rsp = record rsp {
  fromuid = req.fromuid;
  touid = req.touid;
  textmsgs = rsp.textmsgs ++ req.textmsgs;
}

abbrev pub fail_text : TextChatMsgRsp → TextChatMsgRsp
fail_text rsp = record rsp { error = error_number ErrorCode.rpc_failed }

module _ {C S : Type 0} (G : ChatStub C S) where
  -- `NotifyAddFriend`
  unfoldable pub client_add_friend :
      Str → AddFriendReq → ChatClient C S → Called AddFriendRsp × ChatClient C S
  client_add_friend server_ip req =
      call_peer G.notify_add_friend fail_add (defer_add req) server_ip req new_add_rsp

  -- `NotifyAuthFriend`
  unfoldable pub client_auth_friend :
      Str → AuthFriendReq → ChatClient C S → Called AuthFriendRsp × ChatClient C S
  client_auth_friend server_ip req =
      call_peer G.notify_auth_friend fail_auth (defer_auth req) server_ip req new_auth_rsp

  -- `NotifyTextChatMsg`
  unfoldable pub client_text_chat_msg :
      Str → TextChatMsgReq → ChatClient C S → Called TextChatMsgRsp × ChatClient C S
  client_text_chat_msg server_ip req =
      call_peer G.notify_text_chat_msg fail_text (defer_text req) server_ip req new_text_rsp

  -- `GetBaseInfo`, which leaves the user as he is.
  abbrev pub client_get_base_info : Str → ℤ → Option UserInfo → Bool × Option UserInfo
  client_get_base_info base_key uid user_info = (true, user_info)
