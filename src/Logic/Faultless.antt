-- ===== src/Logic/Faultless.antt =====
-- src/application/LogicSystem.cpp: the worker writes inside its memory, but for a login, whose
-- counter may be the largest `int`.
use chat_server.Base.{
  ℕ, ◌≡◌, ◌≢◌, refl, Bool, true, false, Option, none, some, List, [], ◌∷◌, All, Bool-cases, inl,
  inr,
}
use mathlib.Core.Option.{some-injective}
use mathlib.Core.Path.{subst}
use chat_server.Base.Int.{ℤ}
use chat_server.Base.Text.{Str}
use chat_server.Base.Dict.{Dict, Eq, find, int_key}
use chat_server.Domain.{MsgId, msg_number}
use chat_server.Json.{Json}
use chat_server.Services.{Services}
use chat_server.Frame.{Outcome, message_text}
use chat_server.World.{World, M, LogicNode, if_found, pure, skip, ◌>>◌}
use chat_server.World.Faultless.{
  Faultless, Faultless-at, Faultless-then, Faultless-skip, Faultless-modify, Faultless-pure,
}
use chat_server.World.Built.{Any, Built, Built-Faultless}
use chat_server.Logic.Dispatch.{
  Handler, Turn, fun_callbacks, pop_message, deal_one, drain, deal_turn,
}
use chat_server.Logic.Built.{
  search_user_handler-Built, add_friend_handler-Built, auth_friend_handler-Built,
  chat_text_msg_handler-Built,
}

-- What holds of every entry of a dictionary holds of the one that is found.
find-All_entry {κ} :
    {K V : Type 0} ⦃e : Eq K⦄ (P : K → V → Type κ) (k : K) (m : Dict K V) {v : V}
    → All (λ (x : K × V). P x.0 x.1) m
    → find k m ≡ some v
    → P k v
find-All_entry P k [] h e = cc
find-All_entry ⦃e = i⦄ P k ((j, x) ∷ m) {v} h e = elim (Bool-cases (i.beq j k)) [
  | inl same ↦
      subst (P k) (some-injective x v (rw same at e))
        (subst (λ l. P l x) ((i.beq_iff j k).0 same) h.0)
  | inr other ↦ find-All_entry P k m h.1 (rw other at e)
]

module _ {S V : Type 0} (J : Json V) (E : Services S) where
  abbrev IsQuiet : ℤ → Type 0
  IsQuiet id = id ≢ msg_number MsgId.chat_login

  abbrev AllFaultless : ℤ → Handler S → Type 0
  AllFaultless id handler = IsQuiet id → (p : ℕ) (text : Str) → Faultless S (handler p text)

  free : {A : Type 0} (m : M S A) → Built S Any A m → Faultless S m
  free m b = Built-Faultless Any (λ p. tt) m b

  handler-Faultless :
      (id : ℤ) (handler : Handler S)
      → find id (fun_callbacks J E) ≡ some handler
      → AllFaultless id handler
  handler-Faultless id handler e = find-All_entry AllFaultless id (fun_callbacks J E) all e
    where
      all : All (λ (x : ℤ × Handler S). AllFaultless x.0 x.1) (fun_callbacks J E)
      all =
          unfold fun_callbacks in
          (
            λ quiet. elim (quiet refl) [ ],
            (
              λ quiet p text. free _ (search_user_handler-Built J E Any p tt text),
              (
                λ quiet p text. free _ (add_friend_handler-Built J E Any p tt text),
                (
                  λ quiet p text. free _ (auth_friend_handler-Built J E Any p tt text),
                  (λ quiet p text. free _ (chat_text_msg_handler-Built J E Any p tt text), tt),
                ),
              ),
            ),
          )

  deal_one-Faultless :
      (msg : LogicNode)
      → IsQuiet msg.recv_node.msg_id
      → Faultless S (deal_one (fun_callbacks J E) msg)
  unfolding deal_one pop_message
  deal_one-Faultless msg quiet = go (find msg.recv_node.msg_id (fun_callbacks J E)) refl
    where
      go :
          (o : Option (Handler S))
          → find msg.recv_node.msg_id (fun_callbacks J E) ≡ o
          → Faultless S (
              if_found o pop_message
                (λ handler. do handler msg.session (message_text msg.recv_node); pop_message))
      go none e = Faultless-modify S _
      go (some handler) e =
          Faultless-then S _ _
            (handler-Faultless msg.recv_node.msg_id handler e quiet msg.session
              (message_text msg.recv_node))
            (Faultless-modify S _)

  abbrev pub AllQuiet : List LogicNode → Type 0
  AllQuiet que = All (λ (msg : LogicNode). msg.recv_node.msg_id ≢ msg_number MsgId.chat_login) que

  drain-Faultless :
      (que : List LogicNode) → AllQuiet que → Faultless S (drain (fun_callbacks J E) que)
  unfolding drain
  drain-Faultless [] quiet = Faultless-skip S
  drain-Faultless (msg ∷ rest) quiet =
      Faultless-then S _ _ (deal_one-Faultless msg quiet.0) (drain-Faultless rest quiet.1)

  -- The end of a turn, over the queue as it was at its start.
  turn_front :
      (que : List LogicNode)
      → AllQuiet que
      → Faultless S (elim que [
        | [] ↦ pure Turn.waits
        | msg ∷ _ ↦ do deal_one (fun_callbacks J E) msg; pure Turn.goes_on
      ])
  turn_front [] quiet = Faultless-pure S Turn.waits
  turn_front (msg ∷ _) quiet =
      Faultless-then S _ _ (deal_one-Faultless msg quiet.0) (Faultless-pure S Turn.goes_on)

  pub deal_turn-Faultless :
      (stop : Bool) (w : World S)
      → AllQuiet w.msg_que
      → ((deal_turn (fun_callbacks J E) stop >> skip) w).0 ≢ Outcome.fault
  unfolding deal_turn
  deal_turn-Faultless true w quiet =
      Faultless-at S _
        (Faultless-then S _ _
          (Faultless-then S _ _ (drain-Faultless w.msg_que quiet) (Faultless-pure S Turn.leaves))
          (Faultless-skip S))
        w
  deal_turn-Faultless false w quiet =
      Faultless-at S _ (Faultless-then S _ _ (turn_front w.msg_que quiet) (Faultless-skip S)) w
