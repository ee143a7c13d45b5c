-- ===== src/Node/Faults.antt =====
-- src/net/CSession.cpp with src/application/LogicSystem.cpp: when a node writes outside its memory.
use chat_server.Base.{ℕ, ◌≢◌, Bool, true, false}
use chat_server.Base.Text.{Str}
use chat_server.Json.{Json}
use chat_server.Services.{Services}
use chat_server.Frame.{Outcome}
use chat_server.World.{World, M, skip, ◌>>◌}
use chat_server.World.Faultless.{Faultless-at, Faultless-then, Faultless-skip, wrote-fault}
use chat_server.World.Built.{Any, Built, Built-Faultless}
use chat_server.Session.{handle_accept, async_read_head, async_read_full}
use chat_server.Session.Receive.Faultless
use chat_server.Session.Receive.Faultless.{read_event-Faultless}
use chat_server.Logic.Faultless.{AllQuiet, deal_turn-Faultless}
use chat_server.ChatService.Built.{
  notify_add_friend-Built, notify_auth_friend-Built, notify_text_chat_msg-Built,
}
use chat_server.Node.System.{
  Event, accepts, reads, writes, turns, added, accepted, texted, event, IsPossible, Reach,
}
use chat_server.Node.Safe.{Reach-IsSound}

module _ {S V : Type 0} (J : Json V) (E : Services S) where
  -- No head comes in with a length of -1, and no login waits when the worker takes its turn.
  abbrev pub IsHarmless : Event → World S → Type 0
  IsHarmless (reads p ev) w = Faultless.IsHarmless ev (w.sessions p).reading
  IsHarmless (turns stop) w = AllQuiet J E w.msg_que
  IsHarmless _ w = Unit {0}

  call-Faultless :
      {A : Type 0} (m : M S A) → Built S Any A m → (w : World S) → ((m >> skip) w).0 ≢ Outcome.fault
  call-Faultless m b =
      Faultless-at S (m >> skip)
        (Faultless-then S m skip (Built-Faultless Any (λ p. tt) m b) (Faultless-skip S))

  accept-Faultless :
      (p : ℕ) (id : Str) (failed : Bool) (w : World S)
      → (handle_accept p id failed w).0 ≢ Outcome.fault
  unfolding handle_accept async_read_head async_read_full
  accept-Faultless p id true w f = cc
  accept-Faultless p id false w f = cc

  -- Whatever events a node has had, each of which returned, and let the next one be possible: a read
  -- completes with as many bytes as it asked for at most, and a write of a session completes only
  -- while a node is in its send queue. Then that event does not fault: no copy into `_data`, into the
  -- buffer of a message that comes in or of one that is sent runs over it, no terminator is written
  -- outside it, and nothing is taken from an empty queue; unless it is a read that completes a head
  -- with a length of -1, or a turn of the worker with a login in its queue.
  pub Reach-Faultless :
      (s : S) (w : World S) (e : Event)
      → Reach J E s w
      → IsPossible J E e w
      → IsHarmless e w
      → (event J E e w).0 ≢ Outcome.fault
  unfolding event
  Reach-Faultless s w (accepts p id failed) r ok harmless = accept-Faultless p id failed w
  Reach-Faultless s w (reads p ev) r ok harmless =
      read_event-Faultless E p ev w (Reach-IsSound J E s w r p).reading ok harmless
  Reach-Faultless s w (writes p failed) r ok harmless = wrote-fault S p failed w ok
  Reach-Faultless s w (turns stop) r ok harmless = deal_turn-Faultless J E stop w harmless
  Reach-Faultless s w (added req) r ok harmless =
      call-Faultless _ (notify_add_friend-Built J E Any req) w
  Reach-Faultless s w (accepted req) r ok harmless =
      call-Faultless _ (notify_auth_friend-Built J E Any req) w
  Reach-Faultless s w (texted req) r ok harmless =
      call-Faultless _ (notify_text_chat_msg-Built J E Any req) w
