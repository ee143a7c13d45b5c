-- ===== src/Logic/Bystander.antt =====
-- src/application/LogicSystem.cpp: what the worker does to a connection that sent nothing and on
-- which nobody is logged in.
use chat_server.Base.{ℕ, ◌≡◌, ◌≢◌, refl, Option, none, some, List, [], ◌∷◌, All}
use chat_server.Base.Int.{ℤ}
use chat_server.Base.Text.{Str}
use chat_server.Base.Dict.{find, int_key}
use chat_server.Json.{Json}
use chat_server.Services.{Services}
use chat_server.Frame.{message_text}
use chat_server.World.{World, Session, LogicNode, if_found, ◌>>◌}
use chat_server.World.Spares.{Spares, Spares-at, Spares-then, Spares-skip, Spares-modify}
use chat_server.Logic.Dispatch.{Handler, fun_callbacks, pop_message, deal_one, drain}
use chat_server.Logic.Worker.{find-All}
use chat_server.Logic.Spares.{
  search_user_handler-Spares, add_friend_handler-Spares, auth_friend_handler-Spares,
  chat_text_msg_handler-Spares, login_handler-Spares,
}

module _ {S V : Type 0} (J : Json V) (E : Services S) (q : ℕ) (s : Session) where
  abbrev Apart : Handler S → Type 0
  Apart handler = (p : ℕ) → p ≢ q → (text : Str) → Spares S q s (handler p text)

  handler-Spares :
      (id : ℤ) (handler : Handler S) → find id (fun_callbacks J E) ≡ some handler → Apart handler
  handler-Spares id handler e = find-All Apart id (fun_callbacks J E) all e
    where
      all : All (λ (x : ℤ × Handler S). Apart x.1) (fun_callbacks J E)
      all =
          unfold fun_callbacks in
          (
            login_handler-Spares J E q s,
            (
              search_user_handler-Spares J E q s,
              (
                add_friend_handler-Spares J E q s,
                (auth_friend_handler-Spares J E q s, (chat_text_msg_handler-Spares J E q s, tt)),
              ),
            ),
          )

  pop_message-Spares : Spares S q s pop_message
  unfolding pop_message
  pop_message-Spares = Spares-modify S q s _ (λ w b. b)

  deal_one-Spares :
      (msg : LogicNode) → msg.session ≢ q → Spares S q s (deal_one (fun_callbacks J E) msg)
  unfolding deal_one
  deal_one-Spares msg ne = go (find msg.recv_node.msg_id (fun_callbacks J E)) refl
    where
      go :
          (o : Option (Handler S))
          → find msg.recv_node.msg_id (fun_callbacks J E) ≡ o
          → Spares S q s (
              if_found o pop_message
                (λ handler. do handler msg.session (message_text msg.recv_node); pop_message))
      go none e = pop_message-Spares
      go (some handler) e =
          Spares-then S q s _ _
            (handler-Spares msg.recv_node.msg_id handler e msg.session ne
              (message_text msg.recv_node))
            pop_message-Spares

  drain-Spares :
      (que : List LogicNode)
      → All (λ (msg : LogicNode). msg.session ≢ q) que
      → Spares S q s (drain (fun_callbacks J E) que)
  unfolding drain
  drain-Spares [] apart = Spares-skip S q s
  drain-Spares (msg ∷ rest) apart =
      Spares-then S q s _ _ (deal_one-Spares msg apart.0) (drain-Spares rest apart.1)

module _ {S V : Type 0} (J : Json V) (E : Services S) where
  -- Let no user be logged in on a session. Whatever messages of other sessions the worker handles,
  -- and however that ends, the session is as it was, so nothing was sent on it, and still no user
  -- is logged in on it.
  pub drain-bystander :
      (q : ℕ) (que : List LogicNode) (w : World S)
      → All (λ (msg : LogicNode). msg.session ≢ q) que
      → ((uid : ℤ) → find uid w.uid_to_session ≢ some q)
      → let w' = (drain (fun_callbacks J E) que w).1 in
        (w'.sessions q ≡ w.sessions q) × ((uid : ℤ) → find uid w'.uid_to_session ≢ some q)
  drain-bystander q que w apart free =
      Spares-at S q (w.sessions q) _ (drain-Spares J E q (w.sessions q) que apart) w (refl, free)
