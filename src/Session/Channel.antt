-- ===== src/Session/Channel.antt =====
-- src/net/CSession.cpp: a session's send side refines a bounded first-in first-out channel.
use chat_server.Base.{
  ℕ, ◌+◌, ◌-◌, ◌≤◌, ◌≡◌, refl, sym, ap, ◌∙◌, false, ltb, List, [], ◌∷◌, ◌++◌, drop, arith, length,
  if◌then◌else◌, Bool-cases, inl, inr, length-append,
}
use mathlib.Core.List.{append_assoc, append-nil}
use chat_server.Base.Int.{ℤ}
use chat_server.Base.Text.{Str, is_empty}
use chat_server.Domain.{max_sendque}
use chat_server.Frame.{MsgNode, send_node, wire}
use chat_server.World.{Session}
use chat_server.Session.{send_text, handle_write}
use chat_server.Session.SendQueue.{
  frames, busy, fits, enqueue-frames, enqueue-paced, enqueue-send_que, handle_write-frames,
  handle_write-paced, handle_write-send_que, send_text-cases,
}

-- What happens to the send side: the server sends a text, or the write under way completes
-- without an error.
pub data Event : Type 0 where
  sends : Str → ℤ → Event
  completes : Event

pub step : Event → Session → Session
step (sends msg msg_id) s = send_text msg msg_id s
step completes s = handle_write false s

pub run : List Event → Session → Session
run [] s = s
run (e ∷ es) s = run es (step e s)

-- The specification, a channel that knows how many frames it holds: the number after an event,
-- and the frames that it takes in.
abbrev pub held : Event → ℕ → ℕ
held (sends msg msg_id) n = if fits msg n then n + 1 else n
held completes n = n - 1

abbrev pub taken : Event → ℕ → List Str
taken (sends msg msg_id) n =
    if fits msg n then wire (send_node msg (length msg) msg_id) ∷ [] else []
taken completes n = []

pub all_taken : List Event → ℕ → List Str
all_taken [] n = []
all_taken (e ∷ es) n = taken e n ++ all_taken es (held e n)

-- The number of completions, which only a channel that holds something has.
abbrev pub finished : Event → ℕ → ℕ
finished (sends msg msg_id) n = 0
finished completes n = if ltb 0 n then 1 else 0

pub completions : List Event → ℕ → ℕ
completions [] n = 0
completions (e ∷ es) n = finished e n + completions es (held e n)

send-frames :
    (msg : Str) (msg_id : ℤ) (s : Session)
    → frames (send_text msg msg_id s) ≡ frames s ++ taken (sends msg msg_id) (length s.send_que)
send-frames msg msg_id s =
    rw (send_text-cases msg msg_id s) (elim (Bool-cases (fits msg (length s.send_que))) [
      | inl e ↦ rw e (enqueue-frames s.send_que (send_node msg (length msg) msg_id) s)
      | inr e ↦ rw e (sym (append-nil (frames s)))
    ])

step-frames :
    (e : Event) (s : Session) → frames (step e s) ≡ frames s ++ taken e (length s.send_que)
unfolding step
step-frames (sends msg msg_id) s = send-frames msg msg_id s
step-frames completes s = handle_write-frames s.send_que s ∙ sym (append-nil (frames s))

length-drop_one {ℓ} : {A : Type ℓ} (xs : List A) → length (drop 1 xs) ≡ length xs - 1
length-drop_one [] = omega arith
length-drop_one (x ∷ xs) = omega arith

step-held : (e : Event) (s : Session) → length (step e s).send_que ≡ held e (length s.send_que)
unfolding step
step-held (sends msg msg_id) s =
    rw (send_text-cases msg msg_id s) (elim (Bool-cases (fits msg (length s.send_que))) [
      | inl e ↦
          rw (e, enqueue-send_que s.send_que (send_node msg (length msg) msg_id) s)
            (length-append s.send_que _)
      | inr e ↦ rw e
    ])
step-held completes s = rw (handle_write-send_que s.send_que s) (length-drop_one s.send_que)

-- After any sends and completions, the frames handed to the socket and those that wait behind them
-- are those of before, followed by a frame for each text that fitted, in the order of the sends:
-- none is lost, repeated or reordered. A completion with an empty queue counts as nothing.
pub run-frames :
    (es : List Event) (s : Session)
    → frames (run es s) ≡ frames s ++ all_taken es (length s.send_que)
unfolding run all_taken
run-frames [] s = sym (append-nil (frames s))
run-frames (e ∷ es) s =
    rw (run-frames es (step e s), step-frames e s, step-held e s) (append_assoc (frames s) _ _)

held-le : (e : Event) (n : ℕ) → n ≤ max_sendque → held e n ≤ max_sendque
held-le (sends msg msg_id) n h = ground arith
held-le completes n h = omega arith

-- A queue of at most MAX_SENDQUE nodes holds at most MAX_SENDQUE nodes after any sends and
-- completions.
pub run-bounded :
    (es : List Event) (s : Session)
    → length s.send_que ≤ max_sendque
    → length (run es s).send_que ≤ max_sendque
unfolding run
run-bounded [] s h = h
run-bounded (e ∷ es) s h =
    run-bounded es (step e s) (rw (step-held e s) (held-le e (length s.send_que) h))

busy-snoc : (q : List MsgNode) (node : MsgNode) → is_empty (q ++ node ∷ []) ≡ false
busy-snoc [] node = refl
busy-snoc (x ∷ q) node = refl

busy-finished : (q : List MsgNode) → (if is_empty q then 0 else 1) ≡ finished completes (length q)
busy-finished [] = refl
busy-finished (x ∷ q) = ground arith

step-paced :
    (e : Event) (s : Session)
    → length (step e s).writes + busy s
      ≡ length s.writes + finished e (length s.send_que) + busy (step e s)
unfolding step
step-paced (sends msg msg_id) s =
    rw (send_text-cases msg msg_id s) (elim (Bool-cases (fits msg (length s.send_que))) [
      | inl e ↦
          rw (e, enqueue-send_que s.send_que node s, busy-snoc s.send_que node)
            (omega (arith, enqueue-paced s.send_que node s))
      | inr e ↦ rw e (omega arith)
    ])
  where
    node : MsgNode
    node = send_node msg (length msg) msg_id
step-paced completes s = omega (arith, handle_write-paced s.send_que s, busy-finished s.send_que)

-- Over any sends and any completions of writes without an error, the writes started are as many as
-- the completions, and one more if the queue has become nonempty, or one less if it has become empty.
-- A completion with an empty queue counts as nothing. So, as long as no write fails, one write is under way exactly while the queue is not empty, if it
-- was so at the start.
pub run-paced :
    (es : List Event) (s : Session)
    → length (run es s).writes + busy s
      ≡ length s.writes + completions es (length s.send_que) + busy (run es s)
unfolding run completions
run-paced [] s = omega arith
run-paced (e ∷ es) s =
    omega (arith, step-paced e s, run-paced es (step e s), ap (completions es) (step-held e s))
