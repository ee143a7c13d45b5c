-- ===== src/Logic/Guarded.antt =====
-- src/application/LogicSystem.cpp: what is known of every queued message stays known over a turn of
-- the worker.
use chat_server.Base.{◌≡◌, refl, Bool, true, false, Option, none, some, List, [], ◌∷◌, drop, All}
use chat_server.Base.Dict.{find, int_key}
use chat_server.Json.{Json}
use chat_server.Services.{Services}
use chat_server.Frame.{message_text}
use chat_server.World.{LogicNode, if_found, pure, ◌>>◌}
use chat_server.World.Queue.{
  Guards, Guards-bind, Guards-then, Guards-skip, Guards-pure, Guards-gets, Guards-modify,
  Guards-Keeps,
}
use chat_server.Logic.Dispatch.{
  Handler, Turn, fun_callbacks, pop_message, deal_one, drain, deal_turn,
}
use chat_server.Logic.Worker.{handler-Keeps}

module _ {S V : Type 0} (J : Json V) (E : Services S) (P : LogicNode → Type 0) where
  All-drop_one : (que : List LogicNode) → All P que → All P (drop 1 que)
  All-drop_one [] h = h
  All-drop_one (msg ∷ rest) h = h.1

  pop_message-Guards : Guards S P pop_message
  unfolding pop_message
  pop_message-Guards = Guards-modify S P _ (λ w. All-drop_one w.msg_que)

  deal_one-Guards : (msg : LogicNode) → Guards S P (deal_one (fun_callbacks J E) msg)
  unfolding deal_one
  deal_one-Guards msg = go (find msg.recv_node.msg_id (fun_callbacks J E)) refl
    where
      go :
          (o : Option (Handler S))
          → find msg.recv_node.msg_id (fun_callbacks J E) ≡ o
          → Guards S P (
              if_found o pop_message
                (λ handler. do handler msg.session (message_text msg.recv_node); pop_message))
      go none e = pop_message-Guards
      go (some handler) e =
          Guards-then S P _ _
            (Guards-Keeps S P _ (
              handler-Keeps J E msg.recv_node.msg_id handler e msg.session
                (message_text msg.recv_node)))
            pop_message-Guards

  drain-Guards : (que : List LogicNode) → Guards S P (drain (fun_callbacks J E) que)
  unfolding drain
  drain-Guards [] = Guards-skip S P
  drain-Guards (msg ∷ rest) = Guards-then S P _ _ (deal_one-Guards msg) (drain-Guards rest)

  pub deal_turn-Guards : (stop : Bool) → Guards S P (deal_turn (fun_callbacks J E) stop)
  unfolding deal_turn
  deal_turn-Guards true =
      Guards-bind S P _ _ (Guards-gets S P (λ w. w.msg_que))
        (λ que. Guards-then S P _ _ (drain-Guards que) (Guards-pure S P Turn.leaves))
  deal_turn-Guards false = Guards-bind S P _ _ (Guards-gets S P (λ w. w.msg_que)) front
    where
      front :
          (que : List LogicNode)
          → Guards S P (elim que [
            | [] ↦ pure Turn.waits
            | msg ∷ _ ↦ do deal_one (fun_callbacks J E) msg; pure Turn.goes_on
          ])
      front [] = Guards-pure S P Turn.waits
      front (msg ∷ _) = Guards-then S P _ _ (deal_one-Guards msg) (Guards-pure S P Turn.goes_on)
