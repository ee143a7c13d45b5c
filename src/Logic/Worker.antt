-- ===== src/Logic/Worker.antt =====
-- src/application/LogicSystem.cpp: the message queue under the worker's loop.
use chat_server.Base.{
  ℕ, ◌≡◌, refl, ap, sym, ◌∙◌, true, Option, none, some, List, [], ◌∷◌, drop, All, Bool-cases, inl,
  inr,
}
use mathlib.Core.Path.{subst}
use mathlib.Core.Option.{some-injective}
use chat_server.Base.Int.{ℤ}
use chat_server.Base.Text.{Str}
use chat_server.Base.Dict.{Dict, Eq, find, int_key}
use chat_server.Json.{Json}
use chat_server.Services.{Services}
use chat_server.Frame.{Outcome, message_text}
use chat_server.World.{World, LogicNode, resume, if_found, pure, ◌>>◌}
use chat_server.World.Keeps.{IsApart, Keeps, Keeps-at}
use chat_server.Logic.Dispatch.{
  Handler, Turn, fun_callbacks, pop_message, deal_one, drain, deal_turn,
}
use chat_server.Logic.Keeps.{
  search_user_handler-Keeps, add_friend_handler-Keeps, auth_friend_handler-Keeps,
  chat_text_msg_handler-Keeps, login_handler-Keeps,
}

pub find-All {κ} :
    {K V : Type 0} ⦃e : Eq K⦄ (P : V → Type κ) (k : K) (m : Dict K V) {v : V}
    → All (λ (x : K × V). P x.1) m
    → find k m ≡ some v
    → P v
find-All P k [] h e = cc
find-All ⦃e = i⦄ P k ((j, x) ∷ m) {v} h e = elim (Bool-cases (i.beq j k)) [
  | inl same ↦ subst P (some-injective x v (rw same at e)) h.0
  | inr other ↦ find-All P k m h.1 (rw other at e)
]

-- The queue after a message was handled, from how that ended.
abbrev pub left : Outcome (Unit {0}) → List LogicNode → List LogicNode
left (Outcome.ok _) que = drop 1 que
left Outcome.throws que = que
left Outcome.fault que = que

module _ {S V : Type 0} (J : Json V) (E : Services S) where
  abbrev callbacks : Dict ℤ (Handler S)
  callbacks = fun_callbacks J E

  pub queue-IsApart : IsApart (λ (w : World S). w.msg_que)
  queue-IsApart = record { from_outside = λ w s. refl; from_sessions = λ w h. refl }

  -- No handler touches the queue that its message came from.
  pub handler-Keeps :
      (id : ℤ) (handler : Handler S)
      → find id callbacks ≡ some handler
      → (p : ℕ) (text : Str) → Keeps (λ (w : World S). w.msg_que) (handler p text)
  handler-Keeps id handler e =
      find-All
        (λ (k : Handler S). (p : ℕ) (text : Str) → Keeps (λ (w : World S). w.msg_que) (k p text)) id
        callbacks all e
    where
      all :
          All
            (λ (x : ℤ × Handler S).
              (p : ℕ) (text : Str) → Keeps (λ (w : World S). w.msg_que) (x.1 p text))
            callbacks
      all =
          unfold fun_callbacks in
          (
            login_handler-Keeps J E _ queue-IsApart (λ w d. refl),
            (
              search_user_handler-Keeps J E _ queue-IsApart,
              (
                add_friend_handler-Keeps J E _ queue-IsApart,
                (
                  auth_friend_handler-Keeps J E _ queue-IsApart,
                  (chat_text_msg_handler-Keeps J E _ queue-IsApart, tt),
                ),
              ),
            ),
          )

  -- A message whose handling returns leaves the queue, and takes nothing else along.
  pop_after :
      (r : Outcome (Unit {0}) × World S) (w w' : World S)
      → r.1.msg_que ≡ w.msg_que
      → resume (λ _. pop_message) r ≡ (Outcome.ok tt, w')
      → w'.msg_que ≡ drop 1 w.msg_que
  unfolding pop_message
  pop_after (Outcome.ok _, v) w w' k e =
      ap (λ (x : Outcome (Unit {0}) × World S). x.1.msg_que) (sym e) ∙ ap (drop 1) k
  pop_after (Outcome.throws, v) w w' k e = cc
  pop_after (Outcome.fault, v) w w' k e = cc

  dealt :
      (o : Option (Handler S)) (msg : LogicNode) (w w' : World S)
      → find msg.recv_node.msg_id callbacks ≡ o
      → if_found o pop_message
          (λ handler. do handler msg.session (message_text msg.recv_node); pop_message)
          w
        ≡ (Outcome.ok tt, w')
      → w'.msg_que ≡ drop 1 w.msg_que
  dealt none msg w w' found e = pop_after (Outcome.ok tt, w) w w' refl e
  dealt (some handler) msg w w' found e =
      pop_after (handler msg.session (message_text msg.recv_node) w) w w'
        (Keeps-at _ _
          (handler-Keeps msg.recv_node.msg_id handler found msg.session
            (message_text msg.recv_node))
          w)
        e

  -- If handling a message returns, exactly the front of the queue is gone, whichever callback ran.
  pub deal_one-pops :
      (msg : LogicNode) (w w' : World S)
      → deal_one callbacks msg w ≡ (Outcome.ok tt, w')
      → w'.msg_que ≡ drop 1 w.msg_que
  unfolding deal_one
  deal_one-pops msg w w' e = dealt (find msg.recv_node.msg_id callbacks) msg w w' refl e

  left_after :
      (r : Outcome (Unit {0}) × World S) (w : World S)
      → r.1.msg_que ≡ w.msg_que
      → (resume (λ _. pop_message) r).1.msg_que ≡ left (resume (λ _. pop_message) r).0 w.msg_que
  unfolding pop_message
  left_after (Outcome.ok _, v) w k = ap (drop 1) k
  left_after (Outcome.throws, v) w k = k
  left_after (Outcome.fault, v) w k = k

  left_dealt :
      (o : Option (Handler S)) (msg : LogicNode) (w : World S)
      → find msg.recv_node.msg_id callbacks ≡ o
      → let r =
          if_found o pop_message
            (λ handler. do handler msg.session (message_text msg.recv_node); pop_message)
            w in
        r.1.msg_que ≡ left r.0 w.msg_que
  left_dealt none msg w found = left_after (Outcome.ok tt, w) w refl
  left_dealt (some handler) msg w found =
      left_after (handler msg.session (message_text msg.recv_node) w) w (
        Keeps-at _ _
          (handler-Keeps msg.recv_node.msg_id handler found msg.session
            (message_text msg.recv_node))
          w)

  -- Whatever a message holds and whichever callback it has, the queue has lost exactly its front
  -- after the message was handled, and is as it was if the handling threw an exception or wrote
  -- outside its memory.
  pub deal_one-queue :
      (msg : LogicNode) (w : World S)
      → let r = deal_one (fun_callbacks J E) msg w in r.1.msg_que ≡ left r.0 w.msg_que
  unfolding deal_one
  deal_one-queue msg w = left_dealt (find msg.recv_node.msg_id callbacks) msg w refl

  drain_after :
      (msg : LogicNode) (rest : List LogicNode) (w w' : World S) (r : Outcome (Unit {0}) × World S)
      → ((v : World S)
          → v.msg_que ≡ rest
          → drain callbacks rest v ≡ (Outcome.ok tt, w')
          → w'.msg_que ≡ [])
      → w.msg_que ≡ msg ∷ rest
      → deal_one callbacks msg w ≡ r
      → resume (λ _. drain callbacks rest) r ≡ (Outcome.ok tt, w')
      → w'.msg_que ≡ []
  drain_after msg rest w w' (Outcome.ok _, v) ih q d e =
      ih v (deal_one-pops msg w v d ∙ ap (drop 1) q) e
  drain_after msg rest w w' (Outcome.throws, v) ih q d e = cc
  drain_after msg rest w w' (Outcome.fault, v) ih q d e = cc

  drain-empties :
      (que : List LogicNode) (w w' : World S)
      → w.msg_que ≡ que
      → drain callbacks que w ≡ (Outcome.ok tt, w')
      → w'.msg_que ≡ []
  unfolding drain
  drain-empties [] w w' q e = ap (λ (x : Outcome (Unit {0}) × World S). x.1.msg_que) (sym e) ∙ q
  drain-empties (msg ∷ rest) w w' q e =
      drain_after msg rest w w' (deal_one callbacks msg w) (λ v. drain-empties rest v w') q refl e

  stop_after :
      (w w' : World S) (t : Turn) (r : Outcome (Unit {0}) × World S)
      → drain callbacks w.msg_que w ≡ r
      → resume (λ _. pure Turn.leaves) r ≡ (Outcome.ok t, w')
      → (t ≡ Turn.leaves) × (w'.msg_que ≡ [])
  stop_after w w' t (Outcome.ok _, v) d e = (
    cc,
    ap (λ (x : Outcome Turn × World S). x.1.msg_que) (sym e) ∙ drain-empties w.msg_que w v refl d,
  )
  stop_after w w' t (Outcome.throws, v) d e = cc
  stop_after w w' t (Outcome.fault, v) d e = cc

  -- A turn that finds the stop flag set, if it returns, leaves the loop, and with an empty queue: the
  -- pending messages have been handled.
  deal_turn-stop :
      (w w' : World S) (t : Turn)
      → deal_turn callbacks true w ≡ (Outcome.ok t, w')
      → (t ≡ Turn.leaves) × (w'.msg_que ≡ [])
  unfolding deal_turn
  deal_turn-stop w w' t e = stop_after w w' t (drain callbacks w.msg_que w) refl e
