-- ===== src/Logic/Dispatch.antt =====
-- src/application/LogicSystem.cpp: `registerCallBacks` and the loop of the worker thread,
-- `dealMsg`. An exception or a memory fault in a handler ends the process, since nothing catches
-- it.
use chat_server.Base.{ℕ, Bool, true, false, List, [], ◌∷◌, drop}
use chat_server.Base.Int.{ℤ}
use chat_server.Base.Text.{Str}
use chat_server.Base.Dict.{Dict, find, assign, int_key}
use chat_server.Domain.{MsgId, msg_number}
use chat_server.Json.{Json}
use chat_server.Services.{Services}
use chat_server.Frame.{message_text}
use chat_server.World.{M, LogicNode, pure, skip, gets, modify, if_found, ◌>>=◌, ◌>>◌}
use chat_server.Logic.Lookup.{search_user_handler}
use chat_server.Logic.Login.{login_handler}
use chat_server.Logic.Friends.{add_friend_handler, auth_friend_handler}
use chat_server.Logic.Chat.{chat_text_msg_handler}

-- `FunCallBack`; the message id that it is also given is used by no handler.
abbrev pub Handler : Type 0 → Type 0
Handler S = ℕ → Str → M S (Unit {0})

module _ {S V : Type 0} (J : Json V) (E : Services S) where
  -- `_fun_callbacks` after `registerCallBacks`.
  unfoldable pub fun_callbacks : Dict ℤ (Handler S)
  fun_callbacks = assign (msg_number MsgId.text_chat_msg_req) (chat_text_msg_handler J E) (
      assign (msg_number MsgId.auth_friend_req) (auth_friend_handler J E) (
        assign (msg_number MsgId.add_friend_req) (add_friend_handler J E) (
          assign (msg_number MsgId.search_user_req) (search_user_handler J E)
            (assign (msg_number MsgId.chat_login) (login_handler J E) []))))

-- What a turn of the worker's loop ends with: it waits, goes on, or leaves the loop.
pub data Turn : Type 0 where
  waits goes_on leaves : Turn

-- `_msg_que.pop()`
unfoldable pub pop_message : {S : Type 0} → M S (Unit {0})
pop_message = modify (λ w. record w { msg_que = drop 1 w.msg_que })

-- The loop, over the callbacks that are registered.
module _ {S : Type 0} (callbacks : Dict ℤ (Handler S)) where
  -- One message: its callback runs, if there is one, and then it leaves the queue.
  unfoldable pub deal_one : LogicNode → M S (Unit {0})
  unfolding pop_message
  deal_one msg =
      if_found (find msg.recv_node.msg_id callbacks) pop_message
        λ handler. do handler msg.session (message_text msg.recv_node); pop_message

  -- The inner loop after a stop, over the messages of the queue.
  unfoldable pub drain : List LogicNode → M S (Unit {0})
  drain [] = skip
  drain (msg ∷ rest) = do deal_one msg; drain rest

  -- One turn of the outer loop, with `_b_stop` as it finds it.
  unfoldable pub deal_turn : Bool → M S Turn
  deal_turn true = do que ← gets (λ w. w.msg_que); drain que; pure Turn.leaves
  deal_turn false = do
    que ← gets (λ w. w.msg_que)
    elim que [ [] ↦ pure Turn.waits | msg ∷ _ ↦ do deal_one msg; pure Turn.goes_on ]
