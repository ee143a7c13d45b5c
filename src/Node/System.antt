-- ===== src/Node/System.antt =====
-- A whole node: its sessions, the worker and the calls of other nodes (src/net/CSession.cpp,
-- src/net/CServer.cpp, src/application/LogicSystem.cpp, src/application/ChatServiceImpl.cpp), a
-- piece of code at a time.
use chat_server.Base.{ℕ, ◌≡◌, ◌≢◌, Bool, []}
use chat_server.Base.Text.{Str}
use chat_server.Rpc.{AddFriendReq, AuthFriendReq, TextChatMsgReq}
use chat_server.Json.{Json}
use chat_server.Services.{Services}
use chat_server.Frame.{Outcome}
use chat_server.World.{World, M, new_session, skip, ◌>>◌}
use chat_server.Session.{handle_accept, wrote}
use chat_server.Session.Receive.{ReadEvent, read_event}
use chat_server.Session.Receive.Touches.{FitsEvent}
use chat_server.Logic.Dispatch.{fun_callbacks, deal_turn}
use chat_server.ChatService.{notify_add_friend, notify_auth_friend, notify_text_chat_msg}

-- A connection is accepted or fails to be, a read or a write of a session completes, the worker
-- takes a turn with the stop flag as it is, or another node calls.
pub data Event : Type 0 where
  accepts : ℕ → Str → Bool → Event
  reads : ℕ → ReadEvent → Event
  writes : ℕ → Bool → Event
  turns : Bool → Event
  added : AddFriendReq → Event
  accepted : AuthFriendReq → Event
  texted : TextChatMsgReq → Event

-- The node before its first connection.
abbrev pub new_world : {S : Type 0} → S → World S
new_world s = record {
  outside = s;
  sessions = λ p. new_session [];
  server_sessions = [];
  uid_to_session = [];
  msg_que = [];
}

module _ {S V : Type 0} (J : Json V) (E : Services S) where
  unfoldable pub event : Event → M S (Unit {0})
  event (accepts p id failed_accept) = handle_accept p id failed_accept
  event (reads p ev) = read_event E p ev
  event (writes p failed) = wrote p failed
  event (turns stop) = deal_turn (fun_callbacks J E) stop >> skip
  event (added req) = notify_add_friend J E req >> skip
  event (accepted req) = notify_auth_friend J E req >> skip
  event (texted req) = notify_text_chat_msg J E req >> skip

  -- A read gives no more than it was asked for, and a write completes while its node is in the
  -- queue. Nothing else bounds what happens.
  abbrev pub IsPossible : Event → World S → Type 0
  IsPossible (reads p ev) w = FitsEvent ev (w.sessions p).reading
  IsPossible (writes p failed) w = (w.sessions p).send_que ≢ []
  IsPossible _ w = Unit {0}

  -- Where events lead that return, in any order. One that does not ends the process.
  pub data Reach (s : S) : World S → Type 0 where
    starts : Reach s (new_world s)
    later :
        {w : World S} {w' : World S} (e : Event)
        → Reach s w
        → IsPossible e w
        → event e w ≡ (Outcome.ok tt, w')
        → Reach s w'
