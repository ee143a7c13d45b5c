-- ===== src/Node/Delivery.antt =====
-- src/net/CSession.cpp with src/application/LogicSystem.cpp: the way of a text from one client to
-- another on the same node.
use chat_server.Session.Sent.{send-sent}
use chat_server.Base.{
  ℕ, ◌≤◌, ◌<◌, ◌≡◌, ◌≢◌, refl, sym, ap, ◌∙◌, true, List, [], ◌∷◌, ◌++◌, length, take, drop, some,
  All,
}
use chat_server.Base.Text.{Str, str_eq, str_key}
use chat_server.Base.Dict.{find, int_key, beq_refl}
use chat_server.Domain.{max_length, head_total_len, user_ip_key}
use chat_server.Json.{Json}
use chat_server.Services.{Services}
use chat_server.Frame.{Outcome, send_node, wire}
use chat_server.World.{World, Reading, Purpose, Session, update, ◌>>◌}
use chat_server.World.Store.{update_self, update_other}
use chat_server.UserMgr.{get_session}
use chat_server.Session.{send, send_text}
use chat_server.Session.SendQueue.{fits}
use chat_server.Session.Receive.Frames.{joined}
use chat_server.Session.Receive.Message.{posted}
use chat_server.Logic.Chat.{forward_text, deliver_text, chat_text_msg_handler}
use chat_server.Logic.Dispatch.{Turn}
use chat_server.Node.Request.{
  Request, reply, response, request_id, received, received-handled, send_text-writes,
}

module _ {S V : Type 0} (J : Json V) (E : Services S) where
  -- The handler sends the text on the receiver's session and on the sender's.
  handler-delivers :
      (p q : ℕ) (body : Str) (r : Request J body) (s : S) (w : World S)
      → E.redis_get (user_ip_key r.touid) w.outside ≡ (some E.self_name, s)
      → find r.touid w.uid_to_session ≡ some q
      → chat_text_msg_handler J E p body w
        ≡ (send q (reply J r) response >> send p (reply J r) response) (record w { outside = s })
  unfolding chat_text_msg_handler deliver_text forward_text get_session
  handler-delivers p q body r s w here found =
      rw (r.present, r.has_from, r.has_to, r.has_texts, here, own_node, found) refl
    where
      own_node : str_eq E.self_name E.self_name ≡ true
      own_node = beq_refl E.self_name

  -- The node after the handler.
  abbrev delivered : (p q : ℕ) {body : Str} → Request J body → S → World S → World S
  delivered p q r s w =
      let h = update w.sessions q (send_text (reply J r) response (w.sessions q)) in
      record w { outside = s; sessions = update h p (send_text (reply J r) response (h p)) }

  handler-delivered :
      (p q : ℕ) (body : Str) (r : Request J body) (s : S) (w : World S)
      → E.redis_get (user_ip_key r.touid) w.outside ≡ (some E.self_name, s)
      → find r.touid w.uid_to_session ≡ some q
      → chat_text_msg_handler J E p body w ≡ (Outcome.ok tt, delivered p q r s w)
  handler-delivered p q body r s w here found =
      handler-delivers p q body r s w here found ∙ rw (send-sent, send-sent) refl

  -- Let a client's session wait for a head, and let the frame of a text request from a user to
  -- another come in, in any number of pieces, none but the first of a part empty. Let Redis name this
  -- node for the receiver, let him be logged in on another session here, whose connection writes
  -- nothing, let the text fit a frame, and let the worker's queue be empty. Then the next turn of the
  -- worker returns and leaves the queue empty again, each of the two sessions has been sent the text,
  -- and its frame has been handed to the receiver's socket.
  pub text-delivered :
      (p q : ℕ) (body h c : Str) (hs cs : List Str) (r : Request J body) (s : S) (w : World S)
      → p ≢ q
      → length body ≤ max_length
      → All (λ d. 0 < length d) hs
      → All (λ d. 0 < length d) cs
      → let frame = wire (send_node body (length body) request_id) in
        joined (h ∷ hs) ≡ take 4 frame
        → joined (c ∷ cs) ≡ drop 4 frame
        → (w.sessions p).reading ≡ Reading.reading Purpose.head [] head_total_len
        → w.msg_que ≡ []
        → E.redis_get (user_ip_key r.touid) w.outside ≡ (some E.self_name, s)
        → find r.touid w.uid_to_session ≡ some q
        → (w.sessions q).send_que ≡ []
        → fits (reply J r) 0 ≡ true
        → let done = received J E p h hs c cs w in
          (done.0 ≡ Outcome.ok Turn.goes_on)
          × (done.1.msg_que ≡ [])
          × (done.1.sessions p ≡ send_text (reply J r) response (w.sessions p))
          × (done.1.sessions q ≡ send_text (reply J r) response (w.sessions q))
          × ((done.1.sessions q).writes
              ≡ (w.sessions q).writes
                ++ wire (send_node (reply J r) (length (reply J r)) response) ∷ [])
  text-delivered p q body h c hs cs r s w ne size nh nc eh ec waits empty here found free fit =
      rw
        (received-handled J E p body h c hs cs w (delivered p q r s w) size nh nc eh ec waits empty
          (handler-delivered p q body r s (record w { msg_que = posted p request_id body ∷ [] })
            here found))
        (
          refl,
          refl,
          sender,
          receiver,
          rw receiver (send_text-writes (reply J r) response (w.sessions q) free fit),
        )
    where
      sent : ℕ → Session
      sent = update w.sessions q (send_text (reply J r) response (w.sessions q))

      sender :
          update sent p (send_text (reply J r) response (sent p)) p
          ≡ send_text (reply J r) response (w.sessions p)
      sender =
          update_self sent p _
          ∙ ap (send_text (reply J r) response) (update_other w.sessions q p _ (λ e. ne (sym e)))

      receiver :
          update sent p (send_text (reply J r) response (sent p)) q
          ≡ send_text (reply J r) response (w.sessions q)
      receiver = update_other sent p q _ ne ∙ update_self w.sessions q _
