-- ===== src/Node/Forward.antt =====
-- src/application/LogicSystem.cpp: a text for a user whom Redis names another node for.
use chat_server.Session.Sent.{send-sent}
use chat_server.Base.{ℕ, ◌≡◌, ◌≢◌, refl, false, List, [], ◌∷◌, some, Bool-cases, inl, inr}
use chat_server.Base.Text.{Str, str_eq, str_eq_iff, str_key}
use chat_server.Base.Dict.{int_key}
use chat_server.Domain.{user_ip_key}
use chat_server.Json.{Json, text_member}
use chat_server.Rpc.{TextChatData, TextChatMsgReq}
use chat_server.Services.{Services}
use chat_server.Frame.{Outcome}
use chat_server.World.{World, update}
use chat_server.Session.{send_text}
use chat_server.Logic.Chat.{text_messages, forward_text, deliver_text, chat_text_msg_handler}
use chat_server.Node.Request.{Request, reply, response}

-- The messages that the elements of a request's array hold.
pub data Holds {V : Type 0} (J : Json V) : List V → List TextChatData → Type 0 where
  nothing : Holds J [] []
  more :
      {v : V} {vs : List V} (t : TextChatData) {ts : List TextChatData}
      → text_member J v "content" ≡ some t.msgcontent
      → text_member J v "msgid" ≡ some t.msgid
      → Holds J vs ts
      → Holds J (v ∷ vs) (t ∷ ts)

-- The request that goes to the other node.
abbrev pub crossing :
    {V : Type 0} {J : Json V} {body : Str} → Request J body → List TextChatData → TextChatMsgReq
crossing r ts = record { fromuid = r.fromuid; touid = r.touid; textmsgs = ts }

module _ {S V : Type 0} (J : Json V) (E : Services S) where
  text_messages-Holds :
      {vs : List V} {ts : List TextChatData} (w : World S)
      → Holds J vs ts
      → text_messages J E vs w ≡ (Outcome.ok ts, w)
  unfolding text_messages
  text_messages-Holds w nothing = refl
  text_messages-Holds w (more t content msgid rest) =
      rw (content, msgid, text_messages-Holds w rest) refl

  other_node : (name : Str) → name ≢ E.self_name → str_eq name E.self_name ≡ false
  other_node name ne = elim (Bool-cases (str_eq name E.self_name)) [
    | inl e ↦ absurd (ne ((str_eq_iff name E.self_name).0 e))
    | inr e ↦ e
  ]

  -- The node after the handler: the other one was called, and the sender has his reply.
  abbrev pub forwarded :
      (p : ℕ) {body : Str} → Request J body → Str → List TextChatData → S → World S → World S
  forwarded p r name ts s w = record w {
    outside = (E.notify_text_chat_msg name (crossing r ts) s).1;
    sessions = update w.sessions p (send_text (reply J r) response (w.sessions p));
  }

  pub handler-forwards :
      (p : ℕ) (body : Str) (r : Request J body) (name : Str) (ts : List TextChatData) (s : S)
      (w : World S)
      → E.redis_get (user_ip_key r.touid) w.outside ≡ (some name, s)
      → name ≢ E.self_name
      → Holds J (J.elements r.text_array) ts
      → chat_text_msg_handler J E p body w ≡ (Outcome.ok tt, forwarded p r name ts s w)
  unfolding chat_text_msg_handler deliver_text forward_text
  handler-forwards p body r name ts s w there ne holds =
      rw
        (
          r.present,
          r.has_from,
          r.has_to,
          r.has_texts,
          there,
          other_node name ne,
          text_messages-Holds (record w { outside = s }) holds,
          send-sent,
        )
        refl
