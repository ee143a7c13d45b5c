-- ===== src/ChatClient/Replies.antt =====
-- src/infra/grpc/ChatGrpcClient.cpp: what the caller is told, and where the stubs go.
use chat_server.Base.{
  ◌≡◌, refl, ap, ◌∙◌, Bool, true, false, List, [], ◌∷◌, ◌++◌, Option, none, some, if◌then◌else◌,
  Option-cases, Bool-cases, inl, inr,
}
use chat_server.Base.Int.{ℤ}
use chat_server.Base.Text.{Str, str_eq, str_eq_iff, str_key}
use chat_server.Base.Dict.{Dict, find, find-assign}
use chat_server.Domain.{ErrorCode, error_number}
use chat_server.Frame.{Outcome}
use chat_server.Rpc.{
  AddFriendReq, AddFriendRsp, AuthFriendReq, AuthFriendRsp, TextChatMsgReq, TextChatMsgRsp,
}
use chat_server.Pool.{Pool, Called, get_connection, return_connection}
use chat_server.Pool.Rotate.{rotated, pool_of}
use chat_server.ChatClient.{
  ChatStub, ChatClient, new_add_rsp, new_auth_rsp, new_text_rsp, fail_add, fail_auth, fail_text,
  defer_add, defer_auth, defer_text, call_peer, client_add_friend, client_auth_friend,
  client_text_chat_msg,
}

abbrev pub rotated_all : {C : Type 0} → Option (Pool C) → Option (Pool C)
rotated_all none = none
rotated_all (some pool) = some (rotated pool)

found-same :
    {V : Type 0} (k j : Str) (m : Dict Str V) (o : Option V)
    → find k m ≡ o
    → find j m ≡ (if str_eq k j then o else find j m)
found-same k j m o h = elim (Bool-cases (str_eq k j)) [
  | inl e ↦ rw e (rw (← (str_eq_iff k j).0 e) h)
  | inr e ↦ rw e refl
]

module _ {C S Req Rsp : Type 0} (call : C → Req → Rsp → S → (Bool × Rsp) × S)
    (failed defer : Rsp → Rsp) where
  -- The response that the caller has, by what the stub answers.
  abbrev answered : C → Req → Rsp → S → Rsp
  answered stub req rsp s =
      let answer = call stub req rsp s in
      defer (if answer.0.0 then answer.0.1 else failed answer.0.1)

  call_peer-unknown :
      (server_ip : Str) (req : Req) (rsp : Rsp) (k : ChatClient C S)
      → find server_ip k.pools ≡ none
      → call_peer call failed defer server_ip req rsp k
        ≡ (Called.returned (Outcome.ok (defer rsp)), k)
  call_peer-unknown server_ip req rsp k h = rw (call_peer, h)

  call_peer-open :
      (server_ip : Str) (req : Req) (rsp : Rsp) (k : ChatClient C S) (stub : C) (rest : List C)
      → find server_ip k.pools ≡ some (pool_of (stub ∷ rest) false)
      → (call_peer call failed defer server_ip req rsp k).0
        ≡ Called.returned (Outcome.ok (answered stub req rsp k.server))
  unfolding get_connection
  call_peer-open server_ip req rsp k stub rest h = rw (call_peer, h)

  call_peer-pools_by :
      (server_ip j : Str) (req : Req) (rsp : Rsp) (k : ChatClient C S) (cs : List C) (b : Bool)
      → find server_ip k.pools ≡ some (pool_of cs b)
      → find j (call_peer call failed defer server_ip req rsp k).1.pools
        ≡ (if str_eq server_ip j then rotated_all (find server_ip k.pools) else find j k.pools)
  unfolding get_connection return_connection
  call_peer-pools_by server_ip j req rsp k cs true h =
      rw (call_peer, h) (found-same server_ip j k.pools (some (pool_of cs true)) h)
  call_peer-pools_by server_ip j req rsp k [] false h =
      rw (call_peer, h) (found-same server_ip j k.pools (some (pool_of [] false)) h)
  call_peer-pools_by server_ip j req rsp k (c ∷ cs) false h =
      rw (call_peer, h) (find-assign server_ip j (pool_of (cs ++ c ∷ []) false) k.pools)

  call_peer-pools :
      (server_ip j : Str) (req : Req) (rsp : Rsp) (k : ChatClient C S)
      → find j (call_peer call failed defer server_ip req rsp k).1.pools
        ≡ (if str_eq server_ip j then rotated_all (find server_ip k.pools) else find j k.pools)
  call_peer-pools server_ip j req rsp k = elim (Option-cases (find server_ip k.pools)) [
    | inl h ↦ rw (call_peer, h) (found-same server_ip j k.pools none h)
    | inr (pool, h) ↦ call_peer-pools_by server_ip j req rsp k pool.connections pool.b_stop h
  ]

-- The error that a caller is told, by whether the status is ok.
abbrev pub told_error : Bool → ℤ → ℤ
told_error true error = error
told_error false error = error_number ErrorCode.rpc_failed

-- The responses that a caller is told, by whether the status is ok and the stub's response.
abbrev pub add_told : AddFriendReq → AddFriendRsp
add_told req = record {
  error = error_number ErrorCode.success;
  applyuid = req.applyuid;
  touid = req.touid;
}

abbrev pub auth_told : AuthFriendReq → Bool → AuthFriendRsp → AuthFriendRsp
auth_told req ok rsp = record {
  error = told_error ok rsp.error;
  fromuid = req.fromuid;
  touid = req.touid;
}

abbrev pub text_told : TextChatMsgReq → Bool → TextChatMsgRsp → TextChatMsgRsp
text_told req ok rsp = record {
  error = told_error ok rsp.error;
  fromuid = req.fromuid;
  touid = req.touid;
  textmsgs = rsp.textmsgs ++ req.textmsgs;
}

defer_auth-told :
    (req : AuthFriendReq) (ok : Bool) (rsp : AuthFriendRsp)
    → defer_auth req (if ok then rsp else fail_auth rsp) ≡ auth_told req ok rsp
defer_auth-told req true rsp = refl
defer_auth-told req false rsp = refl

defer_text-told :
    (req : TextChatMsgReq) (ok : Bool) (rsp : TextChatMsgRsp)
    → defer_text req (if ok then rsp else fail_text rsp) ≡ text_told req ok rsp
defer_text-told req true rsp = refl
defer_text-told req false rsp = refl

module _ {C S : Type 0} (G : ChatStub C S) where
  -- Whatever a peer answers, each of the three calls leaves the pool of the peer that it called with
  -- the stub that it used at the back, a closed or an empty pool as it was, and the pools of the
  -- other peers as they were.
  pub calls-pools :
      (server_ip j : Str) (add : AddFriendReq) (auth : AuthFriendReq) (text : TextChatMsgReq)
      (k : ChatClient C S)
      → let after =
          if str_eq server_ip j then rotated_all (find server_ip k.pools) else find j k.pools in
        (find j (client_add_friend G server_ip add k).1.pools ≡ after)
        × (find j (client_auth_friend G server_ip auth k).1.pools ≡ after)
        × (find j (client_text_chat_msg G server_ip text k).1.pools ≡ after)
  unfolding client_add_friend client_auth_friend client_text_chat_msg
  calls-pools server_ip j add auth text k = (
    call_peer-pools G.notify_add_friend fail_add (defer_add add) server_ip j add new_add_rsp k,
    call_peer-pools G.notify_auth_friend fail_auth (defer_auth auth) server_ip j auth new_auth_rsp
        k,
    call_peer-pools G.notify_text_chat_msg fail_text (defer_text text) server_ip j text new_text_rsp
        k,
  )

  -- A call of a node without a pool calls nobody, and is told SUCCESS with the ids of the request.
  pub calls-unknown :
      (server_ip : Str) (add : AddFriendReq) (auth : AuthFriendReq) (text : TextChatMsgReq)
      (k : ChatClient C S)
      → find server_ip k.pools ≡ none
      → (client_add_friend G server_ip add k
          ≡ (Called.returned (Outcome.ok (defer_add add new_add_rsp)), k))
        × (client_auth_friend G server_ip auth k
            ≡ (Called.returned (Outcome.ok (defer_auth auth new_auth_rsp)), k))
        × (client_text_chat_msg G server_ip text k
            ≡ (Called.returned (Outcome.ok (defer_text text new_text_rsp)), k))
  unfolding client_add_friend client_auth_friend client_text_chat_msg
  calls-unknown server_ip add auth text k h = (
    call_peer-unknown G.notify_add_friend fail_add (defer_add add) server_ip add new_add_rsp k h,
    call_peer-unknown G.notify_auth_friend fail_auth (defer_auth auth) server_ip auth new_auth_rsp k
        h,
    call_peer-unknown G.notify_text_chat_msg fail_text (defer_text text) server_ip text new_text_rsp
        k h,
  )

  -- Let the pool of a node be open with a stub in it. Then NotifyAddFriend is told SUCCESS whatever
  -- the stub says, even if its status is not ok; NotifyAuthFriend and NotifyTextChatMsg are told the
  -- error of the stub's response, or RPCFAILED if the status is not ok; each response has the ids of
  -- the request, and the last one the texts of the request behind those of the stub's response.
  pub calls-replies :
      (server_ip : Str) (add : AddFriendReq) (auth : AuthFriendReq) (text : TextChatMsgReq)
      (k : ChatClient C S) (stub : C) (rest : List C)
      → find server_ip k.pools ≡ some (pool_of (stub ∷ rest) false)
      → let auth_answer = (G.notify_auth_friend stub auth new_auth_rsp k.server).0 in
        let text_answer = (G.notify_text_chat_msg stub text new_text_rsp k.server).0 in
        ((client_add_friend G server_ip add k).0 ≡ Called.returned (Outcome.ok (add_told add)))
        × ((client_auth_friend G server_ip auth k).0
            ≡ Called.returned (Outcome.ok (auth_told auth auth_answer.0 auth_answer.1)))
        × ((client_text_chat_msg G server_ip text k).0
            ≡ Called.returned (Outcome.ok (text_told text text_answer.0 text_answer.1)))
  unfolding client_add_friend client_auth_friend client_text_chat_msg
  calls-replies server_ip add auth text k stub rest h =
      let auth_answer = (G.notify_auth_friend stub auth new_auth_rsp k.server).0 in
      let text_answer = (G.notify_text_chat_msg stub text new_text_rsp k.server).0 in
      (
        call_peer-open G.notify_add_friend fail_add (defer_add add) server_ip add new_add_rsp k stub
            rest h,
        call_peer-open G.notify_auth_friend fail_auth (defer_auth auth) server_ip auth new_auth_rsp
              k stub rest h
            ∙ ap (λ rsp. Called.returned (Outcome.ok rsp))
                (defer_auth-told auth auth_answer.0 auth_answer.1),
        call_peer-open G.notify_text_chat_msg fail_text (defer_text text) server_ip text
              new_text_rsp k stub rest h
            ∙ ap (λ rsp. Called.returned (Outcome.ok rsp))
                (defer_text-told text text_answer.0 text_answer.1),
      )
