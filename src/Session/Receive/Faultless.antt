-- ===== src/Session/Receive/Faultless.antt =====
-- src/net/CSession.cpp: the reads and `close` write inside their memory, but for a length of -1.
use chat_server.Base.{
  ℕ, zero, suc, ◌+◌, ◌-◌, ◌^◌, ◌≤◌, ◌≡◌, ◌≢◌, refl, sym, ap, ◌∙◌, Bool-cases, inl, inr, not, true,
  false, none, ◌++◌, length, leb, ltb, arith, length-append,
}
use chat_server.Base.Int.{ℤ, pos, negsuc, gtb, is_pos}
use chat_server.Base.Text.{Str}
use chat_server.Domain.{max_length, head_total_len}
use chat_server.Services.{Services}
use chat_server.Frame.{Outcome, RecvNode, recv_node, zeros, msg_node, head_msg_id, head_msg_len}
use chat_server.Frame.Copies.{store_body-whole}
use chat_server.World.{World, Purpose, Reading, outcome, or_throw, set_session, skip, ◌>>=◌}
use chat_server.World.Faultless.{
  Faultless, Faultless-at, Faultless-bind, Faultless-then, Faultless-catch, Faultless-skip,
  Faultless-if, Faultless-when, Faultless-gets, Faultless-modify, Faultless-or_throw, faultless,
}
use chat_server.Session.{
  async_read_full, async_read_head, log_out, close, close_and_clear, clear_session, post_msg_to_que,
}
use chat_server.Session.Moves.{FitsReading, FitsPurpose, IsRoom}
use chat_server.Session.Receive.{
  ReadEvent, read_event, received, failed, on_head, on_body, on_read, on_bytes, on_error,
  async_read_body, set_reading,
}
use chat_server.Session.Receive.Touches.{FitsMore, FitsEvent}

-- The bytes of a head have another length than -1.
abbrev pub IsHarmless : ReadEvent → Reading → Type 0
IsHarmless (received more) (Reading.reading Purpose.head got want) =
    head_msg_len (got ++ more) ≢ negsuc 0
IsHarmless _ _ = Unit {0}

module _ (S : Type 0) where
  Faultless-set_reading : (p : ℕ) (r : Reading) → Faultless S (set_reading p r)
  unfolding set_reading
  Faultless-set_reading p r = Faultless-modify S _

  Faultless-async_read_full :
      (p : ℕ) (purpose : Purpose) (want : ℕ) → Faultless S (async_read_full p purpose want)
  unfolding async_read_full
  Faultless-async_read_full p purpose want = Faultless-modify S _

  Faultless-clear_session : (p : ℕ) → Faultless S (clear_session p)
  unfolding clear_session
  Faultless-clear_session p = Faultless-modify S _

  -- A body is read into a node that could be built.
  Faultless-read_body :
      (p : ℕ) (len msg_id : ℤ)
      → len ≢ negsuc 0
      → Faultless S (outcome (recv_node len msg_id) >>= λ node. async_read_body p node len)
  unfolding recv_node msg_node async_read_body
  Faultless-read_body p (pos n) msg_id h =
      Faultless-then S skip _ (Faultless-skip S) (Faultless-async_read_full p _ n)
  Faultless-read_body p (negsuc zero) msg_id h = elim (h refl) [ ]
  Faultless-read_body p (negsuc (suc n)) msg_id h =
      Faultless-bind S {A = RecvNode} (or_throw none) _ (Faultless-or_throw S none)
        (λ node. Faultless-async_read_full p (Purpose.body node) (2 ^ 64 - 1 - suc n))

module _ {S : Type 0} (E : Services S) where
  log_out-Faultless : (p : ℕ) (uid : ℤ) → Faultless S (log_out E p uid)
  unfolding log_out
  log_out-Faultless p uid = search faultless depth 14

  close_and_clear-Faultless : (p : ℕ) → Faultless S (close_and_clear E p)
  unfolding close_and_clear close
  close_and_clear-Faultless p =
      Faultless-then S (close E p) _
        (Faultless-bind S _ _ (Faultless-gets S (λ w. w.sessions p)) (λ s.
          Faultless-when S (not s.b_close) _ (
            Faultless-then S _ _
              (Faultless-when S (is_pos s.user_uid) _ (log_out-Faultless p s.user_uid))
              (Faultless-modify S (λ w.
                set_session p (record (w.sessions p) { socket_open = false; b_close = true }) w)))))
        (Faultless-clear_session S p)

  on_head-Faultless :
      (p : ℕ) (got : Str) → head_msg_len got ≢ negsuc 0 → Faultless S (on_head E p got)
  unfolding on_head
  on_head-Faultless p got h =
      Faultless-if S (ltb (length got) head_total_len) _ _ (close_and_clear-Faultless p) (
        Faultless-if S (gtb (head_msg_id got) max_length) _ _ (Faultless-clear_session S p) (
          Faultless-if S (gtb (head_msg_len got) max_length) _ _ (Faultless-clear_session S p)
            (Faultless-read_body S p (head_msg_len got) (head_msg_id got) h)))

  on_body-Faultless :
      (p : ℕ) (recv : RecvNode) (got : Str) (want : ℕ)
      → length got ≤ want
      → IsRoom want recv.node
      → Faultless S (on_body E p recv got want)
  unfolding on_body post_msg_to_que async_read_head
  on_body-Faultless p recv got want fits room = elim (Bool-cases (ltb (length got) want)) [
    | inl e ↦ rw e (close_and_clear-Faultless p)
    | inr e ↦
        let full : length got ≡ want = ground arith in
        rw
          (
            e,
            store_body-whole recv got (room.wanted ∙ ap pos (sym full))
                (room.blank ∙ ap (λ n. zeros (n + 1)) (sym full)),
          )
          (Faultless-then S skip _ (Faultless-skip S) (
            Faultless-then S _ _ (Faultless-modify S _)
              (Faultless-async_read_full S p Purpose.head head_total_len)))
  ]

  on_read-Faultless :
      (p : ℕ) (purpose : Purpose) (more got : Str) (want : ℕ)
      → length (got ++ more) ≤ want
      → FitsPurpose purpose want
      → IsHarmless (received more) (Reading.reading purpose got want)
      → Faultless S (on_read E p purpose (got ++ more) want)
  unfolding on_read
  on_read-Faultless p Purpose.head more got want fits room h = on_head-Faultless p (got ++ more) h
  on_read-Faultless p (Purpose.body recv) more got want fits room h =
      on_body-Faultless p recv (got ++ more) want fits room

  on_bytes-Faultless :
      (p : ℕ) (more : Str) (r : Reading)
      → FitsReading r
      → FitsMore more r
      → IsHarmless (received more) r
      → Faultless S (on_bytes E p more r)
  unfolding on_bytes
  on_bytes-Faultless p more Reading.idle h m k = Faultless-skip S
  on_bytes-Faultless p more (Reading.reading purpose got want) h m k = rw room (
      Faultless-if S (leb want (length (got ++ more))) _ _
        (Faultless-then S _ _ (Faultless-set_reading S p Reading.idle) (
          Faultless-catch S _ _
            (on_read-Faultless p purpose more got want (omega (arith, length-append got more)) h.2
              k)
            (Faultless-skip S)))
        (Faultless-set_reading S p (Reading.reading purpose (got ++ more) want)))
    where
      room : ltb max_length (length (got ++ more)) ≡ false
      room = ground (arith, length-append got more)

  on_error-Faultless : (p : ℕ) (r : Reading) → Faultless S (on_error E p r)
  unfolding on_error
  on_error-Faultless p Reading.idle = Faultless-skip S
  on_error-Faultless p (Reading.reading purpose got want) =
      Faultless-then S _ _ (Faultless-set_reading S p Reading.idle)
        (Faultless-catch S _ _ (close_and_clear-Faultless p) (Faultless-skip S))

  -- A read that completes within its buffer, and whose head has no length of -1, does not write
  -- outside its memory.
  pub read_event-Faultless :
      (p : ℕ) (ev : ReadEvent) (w : World S)
      → FitsReading (w.sessions p).reading
      → FitsEvent ev (w.sessions p).reading
      → IsHarmless ev (w.sessions p).reading
      → (read_event E p ev w).0 ≢ Outcome.fault
  unfolding read_event
  read_event-Faultless p (received more) w h m k =
      Faultless-at S _ (on_bytes-Faultless p more (w.sessions p).reading h m k) w
  read_event-Faultless p failed w h m k =
      Faultless-at S _ (on_error-Faultless p (w.sessions p).reading) w
