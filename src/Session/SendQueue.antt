-- ===== src/Session/SendQueue.antt =====
-- src/net/CSession.cpp: the send queue. One frame is written at a time, in the order of the sends.
use chat_server.Base.{
  ℕ, ◌+◌, ◌≡◌, refl, sym, ap, ◌∙◌, Bool-cases, inl, inr, Bool, true, false, ◌&&◌, List, [], ◌∷◌,
  ◌++◌, map, leb, ltb, drop, arith, length, if◌then◌else◌, length-append,
}
use mathlib.Core.List.{append_assoc, append-nil, map-append}
use chat_server.Base.Int.{ℤ}
use chat_server.Base.Text.{Str, is_empty}
use chat_server.Domain.{max_length, max_sendque}
use chat_server.Frame.{MsgNode, send_node, wire}
use chat_server.World.{Session}
use chat_server.Session.{write_front, enqueue, send_bytes, send_text, handle_write}

-- The frames of all sends that were taken: those handed to the socket, and those that wait
-- behind the front of the queue.
abbrev pub frames : Session → List Str
frames s = s.writes ++ map wire (drop 1 s.send_que)

-- 1 while a write is under way.
abbrev pub busy : Session → ℕ
busy s = if is_empty s.send_que then 0 else 1

abbrev pub with_que : Session → List MsgNode → Session
with_que s q = record s { send_que = q }

-- A send on an idle connection starts to write at once; on a busy one it only queues.
pub enqueue-idle :
    (node : MsgNode) (s : Session)
    → enqueue node (with_que s [])
      ≡ record s { send_que = node ∷ []; writes = s.writes ++ wire node ∷ [] }
unfolding enqueue write_front
enqueue-idle node s = refl

enqueue-busy :
    (x : MsgNode) (q : List MsgNode) (node : MsgNode) (s : Session)
    → enqueue node (with_que s (x ∷ q)) ≡ with_que s (x ∷ (q ++ node ∷ []))
unfolding enqueue
enqueue-busy x q node s = rw (long, enqueue)
  where
    long : ltb 1 (length (x ∷ (q ++ node ∷ []))) ≡ true
    long = ground (arith, length-append q (node ∷ []))

pub enqueue-frames :
    (q : List MsgNode) (node : MsgNode) (s : Session)
    → frames (enqueue node (with_que s q)) ≡ frames (with_que s q) ++ wire node ∷ []
enqueue-frames [] node s = rw enqueue-idle (simp append-nil)
enqueue-frames (x ∷ q) node s = rw enqueue-busy (simp (append_assoc, map-append))

-- The writes after a send, against those and the state before it.
pub enqueue-paced :
    (q : List MsgNode) (node : MsgNode) (s : Session)
    → length (enqueue node (with_que s q)).writes + busy (with_que s q) ≡ length s.writes + 1
enqueue-paced [] node s = rw enqueue-idle (omega (arith, length-append s.writes (wire node ∷ [])))
enqueue-paced (x ∷ q) node s = rw enqueue-busy refl

pub enqueue-send_que :
    (q : List MsgNode) (node : MsgNode) (s : Session)
    → (enqueue node (with_que s q)).send_que ≡ q ++ node ∷ []
enqueue-send_que [] node s = rw enqueue-idle refl
enqueue-send_que (x ∷ q) node s = rw enqueue-busy refl

pub handle_write-frames :
    (q : List MsgNode) (s : Session)
    → frames (handle_write false (with_que s q)) ≡ frames (with_que s q)
unfolding handle_write write_front
handle_write-frames [] s = refl
handle_write-frames (x ∷ []) s = refl
handle_write-frames (x ∷ y ∷ q) s = append_assoc s.writes (wire y ∷ []) (map wire q)

pub handle_write-paced :
    (q : List MsgNode) (s : Session)
    → let s' = handle_write false (with_que s q) in
      length s'.writes + busy (with_que s q) ≡ length s.writes + busy (with_que s q) + busy s'
unfolding handle_write write_front
handle_write-paced [] s = omega arith
handle_write-paced (x ∷ []) s = omega arith
handle_write-paced (x ∷ y ∷ q) s = omega (arith, length-append s.writes (wire y ∷ []))

pub handle_write-send_que :
    (q : List MsgNode) (s : Session) → (handle_write false (with_que s q)).send_que ≡ drop 1 q
unfolding handle_write write_front
handle_write-send_que [] s = refl
handle_write-send_que (x ∷ []) s = refl
handle_write-send_que (x ∷ y ∷ q) s = refl

-- The test that a text passes to be sent.
abbrev pub fits : Str → ℕ → Bool
fits msg queued = ltb 0 (length msg) && leb (length msg) max_length && ltb queued max_sendque

-- `send` takes what fits, and changes nothing otherwise.
pub send_text-cases :
    (msg : Str) (msg_id : ℤ) (s : Session)
    → send_text msg msg_id s
      ≡ (if fits msg (length s.send_que) then enqueue (send_node msg (length msg) msg_id) s else s)
unfolding send_text send_bytes
send_text-cases msg msg_id s = ground arith

enqueue-user :
    (q : List MsgNode) (node : MsgNode) (uid : ℤ) (s : Session)
    → record (enqueue node (with_que s q)) { user_uid = uid }
      ≡ enqueue node (with_que (record s { user_uid = uid }) q)
unfolding enqueue write_front
enqueue-user [] node uid s = refl
enqueue-user (x ∷ q) node uid s =
    ap (λ (t : Session). record t { user_uid = uid }) (enqueue-busy x q node s)
    ∙ sym (enqueue-busy x q node (record s { user_uid = uid }))

-- A send does not look at the user.
pub send_text-user :
    (msg : Str) (msg_id uid : ℤ) (s : Session)
    → record (send_text msg msg_id s) { user_uid = uid }
      ≡ send_text msg msg_id (record s { user_uid = uid })
send_text-user msg msg_id uid s = elim (Bool-cases (fits msg (length s.send_que))) [
  | inl e ↦
      rw (send_text-cases msg msg_id s, send_text-cases msg msg_id (record s { user_uid = uid }), e)
        (enqueue-user s.send_que (send_node msg (length msg) msg_id) uid s)
  | inr e ↦
      rw (send_text-cases msg msg_id s, send_text-cases msg msg_id (record s { user_uid = uid }), e)
        refl
]
