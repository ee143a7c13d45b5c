-- ===== src/Node/Queue.antt =====
-- src/net/CSession.cpp with src/application/LogicSystem.cpp: what holds of the sessions of a node and
-- of the messages that wait for its worker, whatever happens, in any order.
use chat_server.Base.{inl, inr, refl}
use chat_server.Base.{ℕ, ap, Bool, true, false, All}
use mathlib.Core.Path.{subst}
use chat_server.Base.Text.{Str}
use chat_server.Json.{Json}
use chat_server.Services.{Services}
use chat_server.World.{World, M, skip, ◌>>◌}
use chat_server.World.Queue.{
  Guards, Guards-at, Guards-then, Guards-skip, Guards-stays, Guards-Keeps,
}
use chat_server.World.Built.{Any, Built, Built-Keeps}
use chat_server.Session.{handle_accept, async_read_head, async_read_full, wrote}
use chat_server.Session.Sent.{wrote-cases}
use chat_server.Session.Sound.{IsSound}
use chat_server.Session.Receive.Whole.{IsWhole, read_event-IsWhole}
use chat_server.Logic.Worker.{queue-IsApart}
use chat_server.Logic.Guarded.{deal_turn-Guards}
use chat_server.ChatService.Built.{
  notify_add_friend-Built, notify_auth_friend-Built, notify_text_chat_msg-Built,
}
use chat_server.Node.System.{
  Event, accepts, reads, writes, turns, added, accepted, texted, event, IsPossible, Reach, starts,
  later,
}
use chat_server.Node.Safe.{Reach-IsSound}

-- Every session is sound, and every message that waits has its whole body and a null byte in its
-- buffer.
pub record IsSafe {S : Type 0} (w : World S) : Type 0 where
  pub sessions : (p : ℕ) → IsSound (w.sessions p)
  pub messages : All IsWhole w.msg_que

module _ {S V : Type 0} (J : Json V) (E : Services S) where
  accept-IsWhole :
      (p : ℕ) (id : Str) (failed : Bool) (w : World S)
      → All IsWhole w.msg_que
      → All IsWhole (handle_accept p id failed w).1.msg_que
  unfolding handle_accept async_read_head async_read_full
  accept-IsWhole p id true w h = h
  accept-IsWhole p id false w h = h

  wrote-IsWhole : (p : ℕ) (failed : Bool) → Guards S IsWhole (wrote p failed)
  wrote-IsWhole p failed =
      Guards-stays S IsWhole _
        (λ w. elim (wrote-cases p failed w) [ inl e ↦ rw e refl | inr (e, _) ↦ rw e refl ])

  call-IsWhole : {A : Type 0} (m : M S A) → Built S Any A m → Guards S IsWhole (m >> skip)
  call-IsWhole m b =
      Guards-then S IsWhole m skip
        (Guards-Keeps S IsWhole m
          (Built-Keeps Any (λ p. tt) (λ (w : World S). w.msg_que) (queue-IsApart J E) m b))
        (Guards-skip S IsWhole)

  event-IsWhole :
      (e : Event) (w : World S)
      → ((p : ℕ) → IsSound (w.sessions p))
      → IsPossible J E e w
      → All IsWhole w.msg_que
      → All IsWhole (event J E e w).1.msg_que
  unfolding event
  event-IsWhole (accepts p id failed) w sound ok = accept-IsWhole p id failed w
  event-IsWhole (reads p ev) w sound ok = read_event-IsWhole E p ev w (sound p).reading ok
  event-IsWhole (writes p failed) w sound ok = Guards-at S IsWhole _ (wrote-IsWhole p failed) w
  event-IsWhole (turns stop) w sound ok =
      Guards-at S IsWhole _
        (Guards-then S IsWhole _ skip (deal_turn-Guards J E IsWhole stop) (Guards-skip S IsWhole)) w
  event-IsWhole (added req) w sound ok =
      Guards-at S IsWhole _ (call-IsWhole _ (notify_add_friend-Built J E Any req)) w
  event-IsWhole (accepted req) w sound ok =
      Guards-at S IsWhole _ (call-IsWhole _ (notify_auth_friend-Built J E Any req)) w
  event-IsWhole (texted req) w sound ok =
      Guards-at S IsWhole _ (call-IsWhole _ (notify_text_chat_msg-Built J E Any req)) w

  Reach-IsWhole : (s : S) (w : World S) → Reach J E s w → All IsWhole w.msg_que
  Reach-IsWhole s w starts = tt
  Reach-IsWhole s w (later {w = v} e r ok returned) =
      subst (λ (x : World S). All IsWhole x.msg_que) (ap (λ x. x.1) returned)
        (event-IsWhole e v (Reach-IsSound J E s v r) ok (Reach-IsWhole s v r))

  -- Whatever events a node has had, each of which returned: the send queue of every session holds
  -- at most MAX_SENDQUE nodes, each of them a head and a body of at most MAX_LENGTH bytes inside its
  -- buffer; the read that is under way wants and has no more bytes than `_data` has room for, and the
  -- node that its bytes go to; and the buffer of every message that waits for the worker is exactly
  -- the bytes of a text of at most MAX_LENGTH bytes, whose number its node has as its length, and a
  -- null byte behind them.
  pub Reach-IsSafe : (s : S) (w : World S) → Reach J E s w → IsSafe w
  Reach-IsSafe s w r = record { sessions = Reach-IsSound J E s w r; messages = Reach-IsWhole s w r }
