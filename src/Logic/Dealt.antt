-- ===== src/Logic/Dealt.antt =====
-- src/application/LogicSystem.cpp: how the worker touches the sessions.
use chat_server.Base.{ℕ, ◌≡◌, refl, Bool, true, false, Option, none, some, List, [], ◌∷◌, All}
use chat_server.Base.Int.{ℤ}
use chat_server.Base.Text.{Str}
use chat_server.Base.Dict.{find, int_key}
use chat_server.Json.{Json}
use chat_server.Services.{Services}
use chat_server.Frame.{message_text}
use chat_server.World.{LogicNode, if_found, pure, ◌>>◌}
use chat_server.Session.Moves.{
  Touches, Touches-bind, Touches-then, Touches-skip, Touches-apart, Touches-gets, Touches-pure,
}
use chat_server.Logic.Dispatch.{
  Handler, Turn, fun_callbacks, pop_message, deal_one, drain, deal_turn,
}
use chat_server.Logic.Worker.{find-All}
use chat_server.Logic.Touches.{
  search_user_handler-Touches, add_friend_handler-Touches, auth_friend_handler-Touches,
  chat_text_msg_handler-Touches, login_handler-Touches,
}

module _ {S V : Type 0} (J : Json V) (E : Services S) where
  abbrev AllTouch : Handler S → Type 0
  AllTouch handler = (p : ℕ) (text : Str) → Touches S (handler p text)

  handler-Touches :
      (id : ℤ) (handler : Handler S) → find id (fun_callbacks J E) ≡ some handler → AllTouch handler
  handler-Touches id handler e = find-All AllTouch id (fun_callbacks J E) all e
    where
      all : All (λ (x : ℤ × Handler S). AllTouch x.1) (fun_callbacks J E)
      all =
          unfold fun_callbacks in
          (
            login_handler-Touches J E,
            (
              search_user_handler-Touches J E,
              (
                add_friend_handler-Touches J E,
                (auth_friend_handler-Touches J E, (chat_text_msg_handler-Touches J E, tt)),
              ),
            ),
          )

  pop_message-Touches : Touches S pop_message
  unfolding pop_message
  pop_message-Touches = Touches-apart S _ (λ w. refl)

  deal_one-Touches : (msg : LogicNode) → Touches S (deal_one (fun_callbacks J E) msg)
  unfolding deal_one
  deal_one-Touches msg = go (find msg.recv_node.msg_id (fun_callbacks J E)) refl
    where
      go :
          (o : Option (Handler S))
          → find msg.recv_node.msg_id (fun_callbacks J E) ≡ o
          → Touches S (
              if_found o pop_message
                (λ handler. do handler msg.session (message_text msg.recv_node); pop_message))
      go none e = pop_message-Touches
      go (some handler) e =
          Touches-then S _ _
            (handler-Touches msg.recv_node.msg_id handler e msg.session
              (message_text msg.recv_node))
            pop_message-Touches

  drain-Touches : (que : List LogicNode) → Touches S (drain (fun_callbacks J E) que)
  unfolding drain
  drain-Touches [] = Touches-skip S
  drain-Touches (msg ∷ rest) = Touches-then S _ _ (deal_one-Touches msg) (drain-Touches rest)

  pub deal_turn-Touches : (stop : Bool) → Touches S (deal_turn (fun_callbacks J E) stop)
  unfolding deal_turn
  deal_turn-Touches true =
      Touches-bind S _ _ (Touches-gets S (λ w. w.msg_que))
        (λ que. Touches-then S _ _ (drain-Touches que) (Touches-pure S Turn.leaves))
  deal_turn-Touches false = Touches-bind S _ _ (Touches-gets S (λ w. w.msg_que)) front
    where
      front :
          (que : List LogicNode)
          → Touches S (elim que [
            | [] ↦ pure Turn.waits
            | msg ∷ _ ↦ do deal_one (fun_callbacks J E) msg; pure Turn.goes_on
          ])
      front [] = Touches-pure S Turn.waits
      front (msg ∷ _) = Touches-then S _ _ (deal_one-Touches msg) (Touches-pure S Turn.goes_on)
