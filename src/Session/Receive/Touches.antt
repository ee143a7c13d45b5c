-- ===== src/Session/Receive/Touches.antt =====
-- src/net/CSession.cpp: how the reads and `close` touch the sessions, and that they write inside
-- their buffers.
use chat_server.Base.{
  ℕ, zero, suc, ◌+◌, ◌≤◌, ◌≡◌, refl, not, true, false, if◌then◌else◌, [], ◌++◌, length, leb, ltb,
  Bool-cases, inl, inr, arith, length-append,
}
use chat_server.Base.Int.{ℤ, pos, negsuc, gtb, is_pos}
use chat_server.Base.Text.{Str}
use chat_server.Domain.{max_length, head_total_len}
use chat_server.Services.{Services}
use chat_server.Frame.{
  Outcome, RecvNode, recv_node, msg_node, store_body, head_msg_id, head_msg_len,
}
use chat_server.World.{World, Purpose, Reading, LogicNode, outcome, skip, ◌>>=◌}
use chat_server.Session.{
  async_read_full, async_read_head, log_out, close, close_and_clear, clear_session, post_msg_to_que,
}
use chat_server.Session.Receive.{
  ReadEvent, read_event, received, failed, on_head, on_body, on_read, on_bytes, on_error,
  async_read_body, set_reading,
}
use chat_server.Session.Moves.{
  Moves, shuts, reads, FitsReading, FitsPurpose, Touches, Touches-at, Touches-bind, Touches-then,
  Touches-catch, Touches-Move, Touches-apart, Touches-skip, Touches-when, Touches-if, Touches-gets,
  Touches-outcome, touches,
}

-- `async_read_some` gives no more bytes than it was asked for.
abbrev pub FitsMore : Str → Reading → Type 0
FitsMore more Reading.idle = Unit {0}
FitsMore more (Reading.reading purpose got want) = length got + length more ≤ want

abbrev pub FitsEvent : ReadEvent → Reading → Type 0
FitsEvent (received more) r = FitsMore more r
FitsEvent failed r = Unit {0}

module _ (S : Type 0) where
  Touches-clear_session : (p : ℕ) → Touches S (clear_session p)
  unfolding clear_session
  Touches-clear_session p = Touches-apart S _ (λ w. refl)

  Touches-post : (msg : LogicNode) → Touches S (post_msg_to_que msg)
  unfolding post_msg_to_que
  Touches-post msg = Touches-apart S _ (λ w. refl)

  Touches-set_reading : (p : ℕ) (r : Reading) → FitsReading r → Touches S (set_reading p r)
  unfolding set_reading
  Touches-set_reading p r h = Touches-Move S p (λ s. record s { reading = r }) (λ s. reads r h)

  Touches-async_read_full :
      (p : ℕ) (purpose : Purpose) (want : ℕ)
      → want ≤ max_length
      → FitsPurpose purpose want
      → Touches S (async_read_full p purpose want)
  unfolding async_read_full
  Touches-async_read_full p purpose want b h =
      Touches-Move S p (λ s. record s { reading = Reading.reading purpose [] want })
        (λ s. reads (Reading.reading purpose [] want) (omega arith, b, h))

  Touches-async_read_head : (p : ℕ) → Touches S (async_read_head p)
  unfolding async_read_head
  Touches-async_read_head p =
      Touches-async_read_full p Purpose.head head_total_len (omega arith) refl

module _ {S : Type 0} (E : Services S) where
  log_out-Touches : (p : ℕ) (uid : ℤ) → Touches S (log_out E p uid)
  unfolding log_out
  log_out-Touches p uid = search touches depth 14

  pub close-Touches : (p : ℕ) → Touches S (close E p)
  unfolding close
  close-Touches p = Touches-bind S _ _ (Touches-gets S (λ w. w.sessions p)) (λ s.
      Touches-when S (not s.b_close) _ (
        Touches-then S _ _ (Touches-when S (is_pos s.user_uid) _ (log_out-Touches p s.user_uid))
          (Touches-Move S p (λ t. record t { socket_open = false; b_close = true }) (λ t. shuts))))

  pub close_and_clear-Touches : (p : ℕ) → Touches S (close_and_clear E p)
  unfolding close_and_clear
  close_and_clear-Touches p = Touches-then S _ _ (close-Touches p) (Touches-clear_session S p)

  -- The node of the body is made for a length within MAX_LENGTH.
  read_body-Touches :
      (p : ℕ) (len msg_id : ℤ)
      → gtb len max_length ≡ false
      → Touches S (outcome (recv_node len msg_id) >>= λ node. async_read_body p node len)
  unfolding recv_node msg_node async_read_body
  read_body-Touches p (pos n) msg_id h = Touches-then S skip _ (Touches-skip S) (
      Touches-async_read_full S p _ n (ground arith)
        (record { empty = refl; wanted = refl; blank = refl }))
  read_body-Touches p (negsuc zero) msg_id h = Touches-outcome S _
  read_body-Touches p (negsuc (suc n)) msg_id h = Touches-outcome S _

  read_checked-Touches :
      (p : ℕ) (len msg_id : ℤ)
      → Touches S (
          if gtb len max_length
          then clear_session p
          else (outcome (recv_node len msg_id) >>= λ node. async_read_body p node len))
  read_checked-Touches p len msg_id = elim (Bool-cases (gtb len max_length)) [
    | inl long ↦ rw long (Touches-clear_session S p)
    | inr fits ↦ rw fits (read_body-Touches p len msg_id fits)
  ]

  on_head-Touches : (p : ℕ) (got : Str) → Touches S (on_head E p got)
  unfolding on_head
  on_head-Touches p got =
      Touches-if S (ltb (length got) head_total_len) _ _ (close_and_clear-Touches p) (
        Touches-if S (gtb (head_msg_id got) max_length) _ _ (Touches-clear_session S p)
          (read_checked-Touches p (head_msg_len got) (head_msg_id got)))

  on_body-Touches :
      (p : ℕ) (recv : RecvNode) (got : Str) (want : ℕ) → Touches S (on_body E p recv got want)
  unfolding on_body
  on_body-Touches p recv got want = Touches-if S _ _ _ (close_and_clear-Touches p) (
      Touches-bind S _ _ (Touches-outcome S (store_body recv got))
        (λ content. Touches-then S _ _ (Touches-post S _) (Touches-async_read_head S p)))

  on_read-Touches :
      (p : ℕ) (purpose : Purpose) (got : Str) (want : ℕ) → Touches S (on_read E p purpose got want)
  unfolding on_read
  on_read-Touches p Purpose.head got want = on_head-Touches p got
  on_read-Touches p (Purpose.body recv) got want = on_body-Touches p recv got want

  on_bytes-Touches :
      (p : ℕ) (more : Str) (r : Reading)
      → FitsReading r
      → FitsMore more r
      → Touches S (on_bytes E p more r)
  unfolding on_bytes
  on_bytes-Touches p more Reading.idle h m = Touches-skip S
  on_bytes-Touches p more (Reading.reading purpose got want) h m =
      Touches-if S (ltb max_length (length (got ++ more))) _ _ (Touches-outcome S Outcome.fault) (
        Touches-if S (leb want (length (got ++ more))) _ _
          (Touches-then S _ _ (Touches-set_reading S p Reading.idle tt)
            (Touches-catch S _ _ (on_read-Touches p purpose (got ++ more) want) (Touches-skip S)))
          (Touches-set_reading S p (Reading.reading purpose (got ++ more) want)
            (omega (arith, length-append got more), h.1, h.2)))

  on_error-Touches : (p : ℕ) (r : Reading) → Touches S (on_error E p r)
  unfolding on_error
  on_error-Touches p Reading.idle = Touches-skip S
  on_error-Touches p (Reading.reading purpose got want) =
      Touches-then S _ _ (Touches-set_reading S p Reading.idle tt)
        (Touches-catch S _ _ (close_and_clear-Touches p) (Touches-skip S))

  -- A read that completes within its buffer moves the sessions.
  pub read_event-Moves :
      (p : ℕ) (ev : ReadEvent) (w : World S)
      → FitsReading (w.sessions p).reading
      → FitsEvent ev (w.sessions p).reading
      → (q : ℕ) → Moves (w.sessions q) ((read_event E p ev w).1.sessions q)
  unfolding read_event
  read_event-Moves p (received more) w h m q =
      Touches-at S _ (on_bytes-Touches p more (w.sessions p).reading h m) w q
  read_event-Moves p failed w h m q = Touches-at S _ (on_error-Touches p (w.sessions p).reading) w q
