-- ===== src/Session/Sent.antt =====
-- src/net/CSession.cpp: what `send` and `handleWrite` come to.
use chat_server.Base.{ℕ, ◌≡◌, refl, Bool, true, false, List, [], ◌∷◌, inl, inr, ◌⊎◌, arith}
use chat_server.Base.Int.{ℤ}
use chat_server.Base.Text.{Str}
use chat_server.Frame.{Outcome, MsgNode}
use chat_server.Frame.Copies.{make_send_node-whole}
use chat_server.World.{World, Session, set_session}
use chat_server.Session.{send_text, send_bytes, try_send, send, handle_write, written, wrote}

-- The copies of a send run over nothing.
try_send-sent :
    (msg : Str) (msg_id : ℤ) (s : Session)
    → try_send msg msg_id s ≡ Outcome.ok (send_text msg msg_id s)
unfolding try_send send_text send_bytes
try_send-sent msg msg_id s = rw (make_send_node-whole msg msg_id) (ground arith)

written-cases :
    (que : List MsgNode) (failed : Bool) (s : Session)
    → let t = record s { send_que = que } in
      (written failed t ≡ Outcome.ok (handle_write failed t))
      ⊎ ((written failed t ≡ Outcome.fault) × (que ≡ []))
unfolding written
written-cases que true s = inl refl
written-cases [] false s = inr (refl, refl)
written-cases (node ∷ que) false s = inl refl

module _ {S : Type 0} where
  pub send-sent :
      (p : ℕ) (msg : Str) (msg_id : ℤ) (w : World S)
      → send p msg msg_id w ≡ (Outcome.ok tt, set_session p (send_text msg msg_id (w.sessions p)) w)
  unfolding send
  send-sent p msg msg_id w = rw (try_send-sent msg msg_id (w.sessions p)) refl

  -- A write that completes is handled, or there is no node that it could have been of.
  pub wrote-cases :
      (p : ℕ) (failed : Bool) (w : World S)
      → (wrote p failed w ≡ (Outcome.ok tt, set_session p (handle_write failed (w.sessions p)) w))
        ⊎ ((wrote p failed w ≡ (Outcome.fault, w)) × ((w.sessions p).send_que ≡ []))
  unfolding wrote
  wrote-cases p failed w = elim (written-cases (w.sessions p).send_que failed (w.sessions p)) [
    | inl e ↦ inl (rw e refl)
    | inr (e, none_left) ↦ inr (rw e refl, none_left)
  ]
