-- ===== src/Session/Sound.antt =====
-- src/net/CSession.cpp: what holds of a session, whatever is done to it.
use chat_server.Base.{
  ℕ, ◌+◌, ◌≤◌, ◌≡◌, refl, ◌∙◌, Bool, true, false, List, [], ◌∷◌, ◌++◌, length, take, drop, ltb, All,
  Bool-cases, inl, inr, arith, length-append,
}
use chat_server.Base.Int.{ℤ, pos}
use chat_server.Base.Text.{Str}
use chat_server.Domain.{max_length, max_sendque, head_total_len}
use chat_server.Frame.{MsgNode, send_node}
use chat_server.Frame.Copies.{length-drop, length-take, length-copy_to, length-with_len, with_len}
use chat_server.World.{Session, new_session}
use chat_server.Session.{send_text, enqueue, handle_write, write_front}
use chat_server.Session.SendQueue.{
  fits, send_text-cases, enqueue-send_que, handle_write-send_que, with_que,
}
use chat_server.Session.Moves.{Move, Moves, stays, goes, binds, reads, shuts, FitsReading}

-- A node to be written: its bytes are a head and a body within MAX_LENGTH, and they are in its
-- buffer.
pub record IsFrame (node : MsgNode) : Type 0 where
  pub body_len : ℕ
  pub short_body : body_len ≤ max_length
  pub written : node.total_len ≡ pos (head_total_len + body_len)
  pub inside : length node.content ≡ head_total_len + body_len + 1

-- The send queue is not over its limit and has frames only, and the read that is under way does not
-- run over its buffer.
pub record IsSound (s : Session) : Type 0 where
  pub bounded : length s.send_que ≤ max_sendque
  pub framed : All IsFrame s.send_que
  pub reading : FitsReading s.reading

send_node-IsFrame :
    (msg : Str) (msg_id : ℤ) → length msg ≤ max_length → IsFrame (send_node msg (length msg) msg_id)
unfolding send_node
send_node-IsFrame msg msg_id h = record {
  body_len = length msg;
  short_body = h;
  written = refl;
  inside =
      length-copy_to 4 (take (length msg) msg) (with_len (length msg) msg_id) (
        omega
          (arith, length-with_len (length msg) msg_id, length-take (length msg) msg (omega arith)))
      ∙ length-with_len (length msg) msg_id;
}

All-append : {A : Type 0} (P : A → Type 0) (xs ys : List A) → All P xs → All P ys → All P (xs ++ ys)
All-append P [] ys h k = k
All-append P (x ∷ xs) ys h k = (h.0, All-append P xs ys h.1 k)

All-drop_one : (xs : List MsgNode) → All IsFrame xs → All IsFrame (drop 1 xs)
All-drop_one [] h = h
All-drop_one (x ∷ xs) h = h.1

write_front-reading :
    (q : List MsgNode) (s : Session) → (write_front (with_que s q)).reading ≡ s.reading
unfolding write_front
write_front-reading [] s = refl
write_front-reading (x ∷ q) s = refl

enqueue-reading : (node : MsgNode) (s : Session) → (enqueue node s).reading ≡ s.reading
unfolding enqueue
enqueue-reading node s = elim (Bool-cases (ltb 1 (length (s.send_que ++ node ∷ [])))) [
  | inl e ↦ rw e refl
  | inr e ↦ rw e (write_front-reading (s.send_que ++ node ∷ []) s)
]

handle_write-reading : (failed : Bool) (s : Session) → (handle_write failed s).reading ≡ s.reading
unfolding handle_write
handle_write-reading true s = refl
handle_write-reading false s = write_front-reading (drop 1 s.send_que) s

enqueue-framed :
    (msg : Str) (msg_id : ℤ) (s : Session)
    → length msg ≤ max_length
    → All IsFrame s.send_que
    → All IsFrame (enqueue (send_node msg (length msg) msg_id) s).send_que
enqueue-framed msg msg_id s h all =
    rw (enqueue-send_que s.send_que (send_node msg (length msg) msg_id) s)
      (All-append IsFrame s.send_que _ all (send_node-IsFrame msg msg_id h, tt))

enqueue-IsSound :
    (msg : Str) (msg_id : ℤ) (s : Session)
    → fits msg (length s.send_que) ≡ true
    → IsSound s
    → IsSound (enqueue (send_node msg (length msg) msg_id) s)
enqueue-IsSound msg msg_id s e h = record {
  bounded =
      rw (enqueue-send_que s.send_que (send_node msg (length msg) msg_id) s)
        (ground (arith, length-append s.send_que (send_node msg (length msg) msg_id ∷ [])));
  framed = enqueue-framed msg msg_id s (ground arith) h.framed;
  reading = rw (enqueue-reading (send_node msg (length msg) msg_id) s) h.reading;
}

send_text-IsSound :
    (msg : Str) (msg_id : ℤ) (s : Session) → IsSound s → IsSound (send_text msg msg_id s)
send_text-IsSound msg msg_id s h = elim (Bool-cases (fits msg (length s.send_que))) [
  | inl e ↦ rw (send_text-cases msg msg_id s, e) (enqueue-IsSound msg msg_id s e h)
  | inr e ↦ rw (send_text-cases msg msg_id s, e) h
]

handle_write-IsSound : (failed : Bool) (s : Session) → IsSound s → IsSound (handle_write failed s)
handle_write-IsSound true s h = unfold handle_write in h
handle_write-IsSound false s h = record {
  bounded =
      rw (handle_write-send_que s.send_que s) (omega (arith, length-drop 1 s.send_que, h.bounded));
  framed = rw (handle_write-send_que s.send_que s) (All-drop_one s.send_que h.framed);
  reading = rw (handle_write-reading false s) h.reading;
}

Move-IsSound : {s t : Session} → Move s t → IsSound s → IsSound t
Move-IsSound {s} (Move.sends msg msg_id) h = send_text-IsSound msg msg_id s h
Move-IsSound (binds uid) h = record { bounded = h.bounded; framed = h.framed; reading = h.reading }
Move-IsSound (reads r fit) h = record { bounded = h.bounded; framed = h.framed; reading = fit }
Move-IsSound shuts h = record { bounded = h.bounded; framed = h.framed; reading = h.reading }
Move-IsSound {s} (Move.completes failed) h = handle_write-IsSound failed s h

pub Moves-IsSound : {s t : Session} → Moves s t → IsSound s → IsSound t
Moves-IsSound stays h = h
Moves-IsSound (goes m k) h = Moves-IsSound k (Move-IsSound m h)

pub new_session-IsSound : (id : Str) → IsSound (new_session id)
new_session-IsSound id = record { bounded = omega arith; framed = tt; reading = tt }
