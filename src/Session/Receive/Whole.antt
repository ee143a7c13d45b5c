-- ===== src/Session/Receive/Whole.antt =====
-- src/net/CSession.cpp: the messages that the reads hand to the worker have their whole body, inside
-- their buffer.
use chat_server.Base.{
  ℕ, ◌+◌, ◌≤◌, ◌≡◌, refl, sym, ap, ◌∙◌, not, true, false, List, [], ◌∷◌, ◌++◌, length, leb, ltb,
  All, Bool-cases, inl, inr, arith, length-append,
}
use chat_server.Base.Int.{ℤ, pos, negsuc, gtb, is_pos}
use chat_server.Base.Text.{Str}
use chat_server.Domain.{max_length, head_total_len}
use chat_server.Services.{Services}
use chat_server.Frame.{Outcome, RecvNode, recv_node, zeros, head_msg_id, head_msg_len}
use chat_server.Frame.Copies.{store_body-whole}
use chat_server.UserMgr.{remove_user_session}
use chat_server.World.{World, LogicNode, Purpose, Reading, outcome, skip}
use chat_server.World.Queue.{
  Guards, Guards-at, Guards-bind, Guards-then, Guards-gets, Guards-when, Guards-modify,
  Guards-set_session, Guards-catch, Guards-skip, Guards-outcome, Guards-if, Guards-apart, guards,
}
use chat_server.Session.{
  async_read_full, async_read_head, set_user_id, log_out, close, close_and_clear, clear_session,
  post_msg_to_que,
}
use chat_server.Session.Moves.{FitsReading, FitsPurpose, IsRoom}
use chat_server.Session.Receive.Message.{filled}
use chat_server.Session.Receive.{
  ReadEvent, read_event, received, failed, on_head, on_body, on_read, on_bytes, on_error,
  async_read_body, set_reading,
}
use chat_server.Session.Receive.Touches.{FitsMore, FitsEvent}

-- A message of the queue: its node is for as many bytes as were read, within MAX_LENGTH, and its
-- buffer is these bytes and a null byte behind them.
pub record IsWhole (msg : LogicNode) : Type 0 where
  pub text : Str
  pub short_body : length text ≤ max_length
  pub read : msg.recv_node.cur_len ≡ pos (length text)
  pub total : msg.recv_node.total_len ≡ pos (length text)
  pub stored : msg.recv_node.content ≡ text ++ 0 ∷ []

module _ (S : Type 0) where
  abbrev Whole : {A : Type 0} → (World S → Outcome A × World S) → Type 0
  Whole m = Guards S IsWhole m

  async_read_full-Whole :
      (p : ℕ) (purpose : Purpose) (want : ℕ) → Whole (async_read_full p purpose want)
  unfolding async_read_full
  async_read_full-Whole p purpose want = Guards-apart S IsWhole _ (λ w. refl)

  async_read_head-Whole : (p : ℕ) → Whole (async_read_head p)
  unfolding async_read_head
  async_read_head-Whole p = async_read_full-Whole p Purpose.head head_total_len

  async_read_body-Whole : (p : ℕ) (node : RecvNode) (len : ℤ) → Whole (async_read_body p node len)
  unfolding async_read_body
  async_read_body-Whole p node (pos n) = async_read_full-Whole p (Purpose.body node) n
  async_read_body-Whole p node (negsuc n) = async_read_full-Whole p (Purpose.body node) _

  set_reading-Whole : (p : ℕ) (r : Reading) → Whole (set_reading p r)
  unfolding set_reading
  set_reading-Whole p r = Guards-apart S IsWhole _ (λ w. refl)

  clear_session-Whole : (p : ℕ) → Whole (clear_session p)
  unfolding clear_session
  clear_session-Whole p = Guards-apart S IsWhole _ (λ w. refl)

  All-snoc :
      (que : List LogicNode) (msg : LogicNode)
      → All IsWhole que
      → IsWhole msg
      → All IsWhole (que ++ msg ∷ [])
  All-snoc [] msg all h = (h, tt)
  All-snoc (m ∷ que) msg all h = (all.0, All-snoc que msg all.1 h)

  post-Whole : (msg : LogicNode) → IsWhole msg → Whole (post_msg_to_que msg)
  unfolding post_msg_to_que
  post-Whole msg h = Guards-modify S IsWhole _ (λ w all. All-snoc w.msg_que msg all h)

module _ {S : Type 0} (E : Services S) where
  log_out-Whole : (p : ℕ) (uid : ℤ) → Whole S (log_out E p uid)
  unfolding log_out remove_user_session set_user_id
  log_out-Whole p uid = search (guards, Guards-apart, refl) depth 14

  close-Whole : (p : ℕ) → Whole S (close E p)
  unfolding close
  close-Whole p = Guards-bind S IsWhole _ _ (Guards-gets S IsWhole (λ w. w.sessions p)) (λ s.
      Guards-when S IsWhole (not s.b_close) _ (
        Guards-then S IsWhole _ _
          (Guards-when S IsWhole (is_pos s.user_uid) _ (log_out-Whole p s.user_uid))
          (Guards-set_session S IsWhole p (λ t. record t { socket_open = false; b_close = true }))))

  close_and_clear-Whole : (p : ℕ) → Whole S (close_and_clear E p)
  unfolding close_and_clear
  close_and_clear-Whole p = Guards-then S IsWhole _ _ (close-Whole p) (clear_session-Whole S p)

  on_head-Whole : (p : ℕ) (got : Str) → Whole S (on_head E p got)
  unfolding on_head
  on_head-Whole p got =
      Guards-if S IsWhole (ltb (length got) head_total_len) _ _ (close_and_clear-Whole p) (
        Guards-if S IsWhole (gtb (head_msg_id got) max_length) _ _ (clear_session-Whole S p) (
          Guards-if S IsWhole (gtb (head_msg_len got) max_length) _ _ (clear_session-Whole S p) (
            Guards-bind S IsWhole (outcome (recv_node (head_msg_len got) (head_msg_id got))) _
              (Guards-outcome S IsWhole _)
              (λ node. async_read_body-Whole S p node (head_msg_len got)))))

  -- The body that was read fills its node.
  filled-IsWhole :
      (p : ℕ) (recv : RecvNode) (got : Str)
      → length got ≤ max_length
      → recv.total_len ≡ pos (length got)
      → IsWhole (filled p recv got)
  filled-IsWhole p recv got short total = record {
    text = got;
    short_body = short;
    read = refl;
    total = total;
    stored = refl;
  }

  on_body-Whole :
      (p : ℕ) (recv : RecvNode) (got : Str) (want : ℕ)
      → length got ≤ want
      → want ≤ max_length
      → IsRoom want recv.node
      → Whole S (on_body E p recv got want)
  unfolding on_body
  on_body-Whole p recv got want fits short room = elim (Bool-cases (ltb (length got) want)) [
    | inl e ↦ rw e (close_and_clear-Whole p)
    | inr e ↦
        let full : length got ≡ want = ground arith in
        let total = room.wanted ∙ ap pos (sym full) in
        rw (e, store_body-whole recv got total (room.blank ∙ ap (λ n. zeros (n + 1)) (sym full)))
          (Guards-then S IsWhole skip _ (Guards-skip S IsWhole) (
            Guards-then S IsWhole _ _
              (post-Whole S _ (filled-IsWhole p recv got (omega arith) total))
              (async_read_head-Whole S p)))
  ]

  on_read-Whole :
      (p : ℕ) (purpose : Purpose) (got : Str) (want : ℕ)
      → length got ≤ want
      → want ≤ max_length
      → FitsPurpose purpose want
      → Whole S (on_read E p purpose got want)
  unfolding on_read
  on_read-Whole p Purpose.head got want fits short room = on_head-Whole p got
  on_read-Whole p (Purpose.body recv) got want fits short room =
      on_body-Whole p recv got want fits short room

  on_bytes-Whole :
      (p : ℕ) (more : Str) (r : Reading)
      → FitsReading r
      → FitsMore more r
      → Whole S (on_bytes E p more r)
  unfolding on_bytes
  on_bytes-Whole p more Reading.idle h m = Guards-skip S IsWhole
  on_bytes-Whole p more (Reading.reading purpose got want) h m =
      Guards-if S IsWhole (ltb max_length (length (got ++ more))) _ _
        (Guards-outcome S IsWhole Outcome.fault)
        (Guards-if S IsWhole (leb want (length (got ++ more))) _ _
          (Guards-then S IsWhole _ _ (set_reading-Whole S p Reading.idle) (
            Guards-catch S IsWhole _ _
              (on_read-Whole p purpose (got ++ more) want (omega (arith, length-append got more))
                h.1 h.2)
              (Guards-skip S IsWhole)))
          (set_reading-Whole S p (Reading.reading purpose (got ++ more) want)))

  on_error-Whole : (p : ℕ) (r : Reading) → Whole S (on_error E p r)
  unfolding on_error
  on_error-Whole p Reading.idle = Guards-skip S IsWhole
  on_error-Whole p (Reading.reading purpose got want) =
      Guards-then S IsWhole _ _ (set_reading-Whole S p Reading.idle)
        (Guards-catch S IsWhole _ _ (close_and_clear-Whole p) (Guards-skip S IsWhole))

  -- A read that completes within its buffer posts no message but a whole one.
  pub read_event-IsWhole :
      (p : ℕ) (ev : ReadEvent) (w : World S)
      → FitsReading (w.sessions p).reading
      → FitsEvent ev (w.sessions p).reading
      → All IsWhole w.msg_que
      → All IsWhole (read_event E p ev w).1.msg_que
  unfolding read_event
  read_event-IsWhole p (received more) w h m =
      Guards-at S IsWhole _ (on_bytes-Whole p more (w.sessions p).reading h m) w
  read_event-IsWhole p failed w h m =
      Guards-at S IsWhole _ (on_error-Whole p (w.sessions p).reading) w
