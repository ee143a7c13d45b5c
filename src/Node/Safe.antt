-- ===== src/Node/Safe.antt =====
-- src/net/CSession.cpp: what holds of every session of a node, whatever clients, the worker and
-- other nodes do, in any order.
use chat_server.Base.{ℕ, ◌==◌, ==_iff, refl, ap, Bool, true, false, [], Bool-cases, inl, inr, arith}
use mathlib.Core.Path.{subst}
use chat_server.Base.Text.{Str}
use chat_server.Json.{Json}
use chat_server.Services.{Services}
use chat_server.World.{World, M}
use chat_server.World.Store.{update_self, update_other}
use chat_server.Session.{handle_accept}
use chat_server.Session.Moves.{Touches, Touches-at, Touches-then, Touches-skip, Touches-wrote}
use chat_server.Session.Sound.{IsSound, Moves-IsSound, new_session-IsSound}
use chat_server.Session.Receive.Touches.{read_event-Moves}
use chat_server.Logic.Dealt.{deal_turn-Touches}
use chat_server.World.Built.{Any, Built-Touches}
use chat_server.ChatService.Built.{
  notify_add_friend-Built, notify_auth_friend-Built, notify_text_chat_msg-Built,
}
use chat_server.Node.Tracks.{accepted-sessions}
use chat_server.Node.System.{
  Event, accepts, reads, writes, turns, added, accepted, texted, event, IsPossible, Reach, starts,
  later,
}

module _ {S V : Type 0} (J : Json V) (E : Services S) where
  abbrev AllSound : World S → Type 0
  AllSound w = (p : ℕ) → IsSound (w.sessions p)

  accept-AllSound :
      (p : ℕ) (id : Str) (failed : Bool) (w : World S)
      → AllSound w
      → AllSound (handle_accept p id failed w).1
  accept-AllSound p id true w h q = unfold handle_accept in h q
  accept-AllSound p id false w h q = rw (accepted-sessions E p id w) (elim (Bool-cases (p == q)) [
    | inl k ↦
        rw (← (==_iff p q).0 k, update_self)
          (record {
            bounded = omega arith;
            framed = tt;
            reading = (omega arith, omega arith, refl);
          })
    | inr k ↦ rw (update_other w.sessions p q _ (λ j. grind (arith, (==_iff p q).1 j))) (h q)
  ])

  Touches-AllSound :
      {A : Type 0} (m : M S A) → Touches S m → (w : World S) → AllSound w → AllSound (m w).1
  Touches-AllSound m t w h q = Moves-IsSound (Touches-at S m t w q) (h q)

  event-AllSound :
      (e : Event) (w : World S) → AllSound w → IsPossible J E e w → AllSound (event J E e w).1
  unfolding event
  event-AllSound (accepts p id failed) w h ok q = accept-AllSound p id failed w h q
  event-AllSound (reads p ev) w h ok q =
      Moves-IsSound (read_event-Moves E p ev w (h p).reading ok q) (h q)
  event-AllSound (writes p failed) w h ok q = Touches-AllSound _ (Touches-wrote S p failed) w h q
  event-AllSound (turns stop) w h ok q =
      Touches-AllSound _ (Touches-then S _ _ (deal_turn-Touches J E stop) (Touches-skip S)) w h q
  event-AllSound (added req) w h ok q =
      Touches-AllSound _
        (Touches-then S _ _ (Built-Touches Any (λ p. tt) _ (notify_add_friend-Built J E Any req))
          (Touches-skip S))
        w h q
  event-AllSound (accepted req) w h ok q =
      Touches-AllSound _
        (Touches-then S _ _ (Built-Touches Any (λ p. tt) _ (notify_auth_friend-Built J E Any req))
          (Touches-skip S))
        w h q
  event-AllSound (texted req) w h ok q =
      Touches-AllSound _
        (Touches-then S _ _ (Built-Touches Any (λ p. tt) _ (notify_text_chat_msg-Built J E Any req))
          (Touches-skip S))
        w h q

  -- Whatever events a node has had, each of which returned: the send queue of every session holds
  -- at most MAX_SENDQUE nodes, each of them a head and a body of at most MAX_LENGTH bytes inside its
  -- buffer, and the read that is under way wants and has no more bytes than `_data` has room for, and
  -- the node that its bytes go to.
  pub Reach-IsSound : (s : S) (w : World S) → Reach J E s w → (p : ℕ) → IsSound (w.sessions p)
  Reach-IsSound s w starts p = new_session-IsSound []
  Reach-IsSound s w (later {w = v} e r ok returned) p =
      subst (λ (x : World S). IsSound (x.sessions p)) (ap (λ x. x.1) returned)
        (event-AllSound e v (Reach-IsSound s v r) ok p)
