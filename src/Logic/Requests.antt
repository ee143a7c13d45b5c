-- ===== src/Logic/Requests.antt =====
-- src/application/LogicSystem.cpp: the worker on one message, over the callbacks it registers.
use chat_server.Base.{ℕ, ◌≡◌, refl, sym, Option, none, some, Bool-cases, inl, inr, ◌⊎◌}
use chat_server.Base.Int.{ℤ, pos, int_eq, int_eq_iff}
use chat_server.Base.Text.{Str}
use chat_server.Base.Dict.{Dict, find, int_key}
use chat_server.Domain.{MsgId, msg_number}
use chat_server.Json.{Json}
use chat_server.Services.{Services}
use chat_server.Frame.{Outcome, message_text}
use chat_server.World.{World, M, LogicNode, resume, ◌>>◌}
use chat_server.World.Keeps.{Keeps, Keeps-at, Keeps-then, Keeps-modify}
use chat_server.Logic.Dispatch.{Handler, fun_callbacks, pop_message, deal_one}
use chat_server.Logic.Login.{login_handler}
use chat_server.Logic.Keeps.{
  search_user_handler-Keeps, add_friend_handler-Keeps, auth_friend_handler-Keeps,
  chat_text_msg_handler-Keeps,
}
use chat_server.Logic.Authentic.{users, users-IsApart, Binds, login_authentic}

module _ {S V : Type 0} (J : Json V) (E : Services S) where
  abbrev table : Dict ℤ (Handler S)
  table = fun_callbacks J E

  -- What the table can hold for an id: nothing, the login, or a handler that binds nobody.
  data Entry (id : ℤ) (o : Option (Handler S)) : Type 0 where
    unknown : o ≡ none → Entry id o
    login : id ≡ msg_number MsgId.chat_login → o ≡ some (login_handler J E) → Entry id o
    other :
        (handler : Handler S)
        → o ≡ some handler
        → ((p : ℕ) (text : Str) → Keeps users (handler p text))
        → Entry id o

  entry : (id : ℤ) → Entry id (find id table)
  unfolding fun_callbacks
  entry id = elim (Bool-cases (int_eq (pos 2001) id)) [
    | inl e ↦ login (sym ((int_eq_iff (pos 2001) id).0 e)) (rw e)
    | inr n₁ ↦ rw n₁ (elim (Bool-cases (int_eq (pos 2003) id)) [
      | inl e ↦ other _ (rw e) (search_user_handler-Keeps J E users users-IsApart)
      | inr n₂ ↦ rw n₂ (elim (Bool-cases (int_eq (pos 2005) id)) [
        | inl e ↦ other _ (rw e) (add_friend_handler-Keeps J E users users-IsApart)
        | inr n₃ ↦ rw n₃ (elim (Bool-cases (int_eq (pos 2008) id)) [
          | inl e ↦ other _ (rw e) (auth_friend_handler-Keeps J E users users-IsApart)
          | inr n₄ ↦ rw n₄ (elim (Bool-cases (int_eq (pos 2011) id)) [
            | inl e ↦ other _ (rw e) (chat_text_msg_handler-Keeps J E users users-IsApart)
            | inr n₅ ↦ unknown (rw n₅)
          ])
        ])
      ])
    ])
  ]

  pop_message-users : Keeps users (pop_message {S = S})
  unfolding pop_message
  pop_message-users = Keeps-modify users _ (λ w. refl)

  -- The handler runs, and then the message leaves the queue.
  run_handler : Handler S → LogicNode → M S (Unit {0})
  run_handler handler msg = do handler msg.session (message_text msg.recv_node); pop_message

  deal_one-found :
      (handler : Handler S) (msg : LogicNode)
      → find msg.recv_node.msg_id table ≡ some handler
      → deal_one table msg ≡ run_handler handler msg
  unfolding deal_one run_handler
  deal_one-found handler msg e = rw e

  deal_one-unknown :
      (msg : LogicNode) → find msg.recv_node.msg_id table ≡ none → deal_one table msg ≡ pop_message
  unfolding deal_one
  deal_one-unknown msg e = rw e

  after_login :
      (msg : LogicNode) (w : World S) (r : Outcome (Unit {0}) × World S)
      → Binds J E msg.session (message_text msg.recv_node) w r.1
      → Binds J E msg.session (message_text msg.recv_node) w (resume (λ _. pop_message) r).1
  unfolding pop_message
  after_login msg w (Outcome.ok a, v) b = b
  after_login msg w (Outcome.throws, v) b = b
  after_login msg w (Outcome.fault, v) b = b

  by-Entry :
      (msg : LogicNode) (w : World S)
      → Entry msg.recv_node.msg_id (find msg.recv_node.msg_id table)
      → ((deal_one table msg w).1.uid_to_session ≡ w.uid_to_session)
        ⊎ ((msg.recv_node.msg_id ≡ msg_number MsgId.chat_login)
            × Binds J E msg.session (message_text msg.recv_node) w (deal_one table msg w).1)
  unfolding run_handler
  by-Entry msg w (unknown e) =
      inl (rw (deal_one-unknown msg e) (Keeps-at users _ pop_message-users w))
  by-Entry msg w (login id e) = inr (
    id,
    rw (deal_one-found _ msg e)
        (after_login msg w _ (login_authentic J E msg.session (message_text msg.recv_node) w)),
  )
  by-Entry msg w (other handler e k) = inl (
      rw (deal_one-found handler msg e) (
        Keeps-at users _
          (Keeps-then users _ _ (k msg.session (message_text msg.recv_node)) pop_message-users) w))

  -- Handling any message, however it ends, leaves UserMgr's map as it was, unless the message is a
  -- login request that names a user together with the token that Redis holds for that user: then
  -- the map may have that user on the message's session, and is otherwise as it was.
  pub deal_one-authentic :
      (msg : LogicNode) (w : World S)
      → ((deal_one (fun_callbacks J E) msg w).1.uid_to_session ≡ w.uid_to_session)
        ⊎ ((msg.recv_node.msg_id ≡ msg_number MsgId.chat_login)
            × Binds J E msg.session
                (message_text msg.recv_node)
                w
                (deal_one (fun_callbacks J E) msg w).1)
  deal_one-authentic msg w = by-Entry msg w (entry msg.recv_node.msg_id)
