-- ===== src/Node/Request.antt =====
-- src/net/CSession.cpp with src/application/LogicSystem.cpp: the request that a client's text comes
-- in with, up to the turn of the worker that handles it.
use chat_server.Base.{
  ℕ, ◌≤◌, ◌<◌, ◌≡◌, refl, ap, ◌∙◌, true, false, ◌||◌, List, [], ◌∷◌, ◌++◌, length, take, drop, some,
  All, arith,
}
use chat_server.Base.Int.{ℤ}
use chat_server.Base.Text.{Str, bytes}
use chat_server.Domain.{MsgId, msg_number, max_length, head_total_len}
use chat_server.Json.{Json, int_member}
use chat_server.Services.{Services}
use chat_server.Frame.{Outcome, send_node, wire, message_text}
use chat_server.World.{World, Reading, Purpose, Session, LogicNode, M, ◌>>◌}
use chat_server.World.Store.{bind-ok}
use chat_server.Session.{send_text}
use chat_server.Session.SendQueue.{fits, with_que, send_text-cases, enqueue-idle}
use chat_server.Session.Receive.Frames.{feed, joined}
use chat_server.Session.Receive.Message.{posted, feed_frame}
use chat_server.Logic.Chat.{text_reply, chat_text_msg_handler}
use chat_server.Logic.Dispatch.{Turn, fun_callbacks, deal_turn, deal_one, pop_message}

-- A text that fits is written at once on a connection that writes nothing.
pub send_text-writes :
    (msg : Str) (msg_id : ℤ) (s : Session)
    → s.send_que ≡ []
    → fits msg 0 ≡ true
    → (send_text msg msg_id s).writes ≡ s.writes ++ wire (send_node msg (length msg) msg_id) ∷ []
send_text-writes msg msg_id s free fit =
    ap (λ t. (send_text msg msg_id t).writes) (ap (with_que s) free)
    ∙ rw
        (
          send_text-cases msg msg_id (with_que s []),
          fit,
          enqueue-idle (send_node msg (length msg) msg_id) s,
        )
        refl

abbrev pub request_id : ℤ
request_id = msg_number MsgId.text_chat_msg_req

abbrev pub response : ℤ
response = msg_number MsgId.text_chat_msg_rsp

module _ {V : Type 0} (J : Json V) where
  -- What a request holds.
  pub record Request (body : Str) : Type 0 where
    pub fromuid : ℤ
    pub touid : ℤ
    pub text_array : V
    pub present : J.is_null (J.parse body).1 || J.is_empty (J.parse body).1 ≡ false
    pub has_from : int_member J (J.parse body).1 "fromuid" ≡ some fromuid
    pub has_to : int_member J (J.parse body).1 "touid" ≡ some touid
    pub has_texts : J.get (J.parse body).1 (bytes "text_array") ≡ some text_array

  abbrev pub reply : {body : Str} → Request body → Str
  reply r = J.to_styled_string (J.object (text_reply J r.fromuid r.touid r.text_array))

module _ {S V : Type 0} (J : Json V) (E : Services S) where
  -- The bytes of the head and of the body come in, and the worker takes a turn.
  abbrev pub received : (p : ℕ) (h : Str) (hs : List Str) (c : Str) (cs : List Str) → M S Turn
  received p h hs c cs = (feed E p h hs >> feed E p c cs) >> deal_turn (fun_callbacks J E) false

  handled :
      (p : ℕ) (body : Str) (w v : World S)
      → let queued = posted p request_id body ∷ [] in
        message_text (posted p request_id body).recv_node ≡ body
        → chat_text_msg_handler J E p body (record w { msg_que = queued })
          ≡ (Outcome.ok tt, record v { msg_que = queued })
        → deal_turn (fun_callbacks J E) false (record w { msg_que = queued })
          ≡ (Outcome.ok Turn.goes_on, record v { msg_que = [] })
  unfolding deal_turn deal_one fun_callbacks pop_message
  handled p body w v text h = rw (text, h) refl

  -- A session that waits for a head receives a text request, in pieces, while the worker's queue is
  -- empty. Then the next turn of the worker does what the handler does, and empties the queue again.
  pub received-handled :
      (p : ℕ) (body h c : Str) (hs cs : List Str) (w v : World S)
      → length body ≤ max_length
      → All (λ d. 0 < length d) hs
      → All (λ d. 0 < length d) cs
      → let frame = wire (send_node body (length body) request_id) in
        joined (h ∷ hs) ≡ take 4 frame
        → joined (c ∷ cs) ≡ drop 4 frame
        → (w.sessions p).reading ≡ Reading.reading Purpose.head [] head_total_len
        → w.msg_que ≡ []
        → let queued = posted p request_id body ∷ [] in
          chat_text_msg_handler J E p body (record w { msg_que = queued })
            ≡ (Outcome.ok tt, record v { msg_que = queued })
          → received p h hs c cs w ≡ (Outcome.ok Turn.goes_on, record v { msg_que = [] })
  received-handled p body h c hs cs w v size nh nc eh ec waits empty handles =
      bind-ok (feed E p h hs >> feed E p c cs) (λ _. deal_turn (fun_callbacks J E) false) w
        (fed.0 ∙ ap (λ que. (Outcome.ok tt, record w { msg_que = que ++ request ∷ [] })) empty)
      ∙ handled p body w v fed.1 handles
    where
      request : LogicNode
      request = posted p request_id body

      fed :
          ((feed E p h hs >> feed E p c cs) w
            ≡ (Outcome.ok tt, record w { msg_que = w.msg_que ++ request ∷ [] }))
          × (message_text request.recv_node ≡ body)
      fed = feed_frame E p request_id body h c hs cs w (omega arith) refl size nh nc eh ec waits
