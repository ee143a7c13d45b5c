-- ===== src/Node/Across.antt =====
-- src/application/LogicSystem.cpp, src/infra/grpc/ChatGrpcClient.cpp and
-- src/application/ChatServiceImpl.cpp: the way of a text to a client on another node.
use chat_server.Session.Sent.{send-sent}
use chat_server.Base.{
  ℕ, ◌≤◌, ◌<◌, ◌≡◌, ◌≢◌, refl, ap, ◌∙◌, true, false, List, [], ◌∷◌, ◌++◌, length, take, drop, some,
  All,
}
use chat_server.Base.Int.{ℤ, pos}
use chat_server.Base.Text.{Str, str_key}
use chat_server.Base.Dict.{find, assign, find-assign, beq_refl, int_key}
use chat_server.Domain.{
  MsgId, msg_number, ErrorCode, error_number, max_length, head_total_len, user_ip_key,
}
use chat_server.Json.{Json}
use chat_server.Rpc.{TextChatData, TextChatMsgReq, TextChatMsgRsp}
use chat_server.Services.{Services}
use chat_server.Frame.{Outcome, send_node, wire}
use chat_server.World.{World, Reading, Purpose, Session, set_session}
use chat_server.World.Store.{update_self}
use chat_server.UserMgr.{get_session}
use chat_server.Pool.{Called, get_connection, return_connection}
use chat_server.Pool.Rotate.{pool_of}
use chat_server.ChatClient.{
  ChatStub, ChatClient, call_peer, client_text_chat_msg, new_text_rsp, defer_text,
}
use chat_server.ChatService.{notify_text_chat_msg, text_notice}
use chat_server.Session.{send_text}
use chat_server.Session.SendQueue.{fits}
use chat_server.Session.Receive.Frames.{joined}
use chat_server.Session.Receive.Message.{posted}
use chat_server.Logic.Dispatch.{Turn}
use chat_server.Node.Forward.{Holds, crossing, forwarded, handler-forwards}
use chat_server.Node.Request.{
  Request, reply, response, request_id, received, received-handled, send_text-writes,
}

module _ {V : Type 0} (J : Json V) where
  abbrev pub notice : TextChatMsgReq → Str
  notice req = J.to_styled_string (J.object (text_notice J req))

abbrev pub notice_id : ℤ
notice_id = msg_number MsgId.notify_text_chat_msg_req

-- gRPC: a stub's call runs the method on its node, and where that returns, the status is ok and the
-- response is the one that the method filled.
pub record Serves {C T V : Type 0} (J : Json V) (F : Services T) (G : ChatStub C (World T))
    (stub : C) : Type 0 where
  pub texts :
      (req : TextChatMsgReq) (rsp answer : TextChatMsgRsp) (v v' : World T)
      → notify_text_chat_msg J F req v ≡ (Outcome.ok answer, v')
      → G.notify_text_chat_msg stub req rsp v ≡ ((true, answer), v')

-- The calls of the logic's interface are those of the client that is part of the outside.
pub record Calls {C T S : Type 0} (E : Services S) (G : ChatStub C (World T))
    (client : S → ChatClient C (World T)) : Type 0 where
  pub texts :
      (name : Str) (req : TextChatMsgReq) (s : S) (rsp : TextChatMsgRsp)
      (k : ChatClient C (World T))
      → client_text_chat_msg G name req (client s) ≡ (Called.returned (Outcome.ok rsp), k)
      → client (E.notify_text_chat_msg name req s).1 ≡ k

module _ {T V : Type 0} (J : Json V) (F : Services T) where
  -- The other node's part: the receiver's session is sent the notification.
  abbrev notified : ℕ → TextChatMsgReq → World T → World T
  notified q req v = set_session q (send_text (notice J req) notice_id (v.sessions q)) v

  abbrev accepted_rsp : TextChatMsgRsp
  accepted_rsp = record {
    error = error_number ErrorCode.success;
    fromuid = pos 0;
    touid = pos 0;
    textmsgs = [];
  }

  notify_text_chat_msg-found :
      (q : ℕ) (req : TextChatMsgReq) (v : World T)
      → find req.touid v.uid_to_session ≡ some q
      → notify_text_chat_msg J F req v ≡ (Outcome.ok accepted_rsp, notified q req v)
  unfolding notify_text_chat_msg get_session
  notify_text_chat_msg-found q req v found = rw (found, send-sent) refl

  client-Serves :
      {C : Type 0} (G : ChatStub C (World T)) (q : ℕ) (name : Str) (req : TextChatMsgReq)
      (k : ChatClient C (World T)) (stub : C) (rest : List C)
      → Serves J F G stub
      → find name k.pools ≡ some (pool_of (stub ∷ rest) false)
      → find req.touid k.server.uid_to_session ≡ some q
      → client_text_chat_msg G name req k ≡ (
        Called.returned (Outcome.ok (defer_text req accepted_rsp)),
        record {
          pools = assign name (pool_of (rest ++ stub ∷ []) false) k.pools;
          server = notified q req k.server;
        },
      )
  unfolding client_text_chat_msg get_connection return_connection
  client-Serves G q name req k stub rest serves ready found =
      rw
        (
          call_peer,
          ready,
          serves.texts req new_text_rsp accepted_rsp k.server (notified q req k.server)
              (notify_text_chat_msg-found q req k.server found),
        )
        refl

module _ {C S T V : Type 0} (J : Json V) (E : Services S) (F : Services T)
    (G : ChatStub C (World T)) (client : S → ChatClient C (World T)) where
  -- Let a session of a client wait for a head while the worker's queue is empty, and let the frame
  -- of a text request of his come in, in any number of pieces, none but the first of a part empty.
  -- Let Redis name another node for the receiver, let the elements of the request hold texts, and
  -- let this node's pool for the other one be open with a stub in it, through which gRPC reaches the
  -- method there (Serves); let the calls of the logic be those of that client (Calls). On the other
  -- node, let the receiver be logged in on a session that writes nothing, and let the notification
  -- fit a frame. Then the next turn of the worker returns and leaves the queue empty again, the
  -- sender's session has been sent the reply, the frame of the notification has been handed to the
  -- receiver's socket on the other node, and the stub is at the back of its pool.
  pub text-crosses :
      (p q : ℕ) (body h c : Str) (hs cs : List Str) (r : Request J body) (name : Str)
      (ts : List TextChatData) (stub : C) (rest : List C) (s : S) (w : World S)
      → Calls E G client
      → Serves J F G stub
      → length body ≤ max_length
      → All (λ d. 0 < length d) hs
      → All (λ d. 0 < length d) cs
      → let frame = wire (send_node body (length body) request_id) in
        joined (h ∷ hs) ≡ take 4 frame
        → joined (c ∷ cs) ≡ drop 4 frame
        → (w.sessions p).reading ≡ Reading.reading Purpose.head [] head_total_len
        → w.msg_que ≡ []
        → E.redis_get (user_ip_key r.touid) w.outside ≡ (some name, s)
        → name ≢ E.self_name
        → Holds J (J.elements r.text_array) ts
        → find name (client s).pools ≡ some (pool_of (stub ∷ rest) false)
        → let there = (client s).server in
          find r.touid there.uid_to_session ≡ some q
          → (there.sessions q).send_que ≡ []
          → let msg = notice J (crossing r ts) in
            fits msg 0 ≡ true
            → let done = received J E p h hs c cs w in
              let after = client done.1.outside in
              (done.0 ≡ Outcome.ok Turn.goes_on)
              × (done.1.msg_que ≡ [])
              × (done.1.sessions p ≡ send_text (reply J r) response (w.sessions p))
              × ((after.server.sessions q).writes
                  ≡ (there.sessions q).writes ++ wire (send_node msg (length msg) notice_id) ∷ [])
              × (find name after.pools ≡ some (pool_of (rest ++ stub ∷ []) false))
  text-crosses p q body h c hs cs r name ts stub rest s w calls serves size nh nc eh ec waits empty
        elsewhere ne holds ready found free fit =
      rw
        (received-handled J E p body h c hs cs w (forwarded J E p r name ts s w) size nh nc eh ec
          waits empty
          (handler-forwards J E p body r name ts s
            (record w { msg_que = posted p request_id body ∷ [] }) elsewhere ne holds))
        (rw called (
          refl,
          refl,
          update_self w.sessions p _,
          ap (λ (x : Session). x.writes) (update_self (client s).server.sessions q _)
              ∙ send_text-writes (notice J (crossing r ts)) notice_id ((client s).server.sessions q)
                  free fit,
          find-assign name name (pool_of (rest ++ stub ∷ []) false) (client s).pools
              ∙ rw (beq_refl name) refl,
        ))
    where
      called : client (E.notify_text_chat_msg name (crossing r ts) s).1 ≡ record {
        pools = assign name (pool_of (rest ++ stub ∷ []) false) (client s).pools;
        server = notified J F q (crossing r ts) (client s).server;
      }
      called =
          calls.texts name (crossing r ts) s _ _
            (client-Serves J F G q name (crossing r ts) (client s) stub rest serves ready found)
