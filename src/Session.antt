-- ===== src/Session.antt =====
-- src/net/CSession.cpp and src/net/CServer.cpp: a client's connection. Sending is a queue whose
-- front is being written; `Receive` has the callbacks of the reads.
pub mod Sent
pub mod Receive
pub mod SendQueue
pub mod Channel
pub mod Close
pub mod Moves
pub mod Sound
mod Tests
use chat_server.Base.{
  ℕ, zero, suc, ◌+◌, ◌-◌, ◌^◌, Bool, true, false, not, ◌||◌, List, [], ◌∷◌, ◌++◌, leb, ltb, ◌==◌,
  drop, length, Option, none, some, if◌then◌else◌, take,
}
use chat_server.Base.Int.{ℤ, pos, negsuc, is_pos, gtb}
use chat_server.Base.Text.{Str, is_empty, str_key}
use chat_server.Base.Dict.{assign, erase}
use chat_server.Base.Decimal.{to_string, stoi}
use chat_server.Domain.{max_length, max_sendque, head_total_len, login_count}
use chat_server.Services.{Services}
use chat_server.Frame.{
  MsgNode, RecvNode, Outcome, ok, throws, fault, send_node, make_send_node, wire, recv_node,
  head_msg_id, head_msg_len, copy_to,
}
use chat_server.World.{
  World, Session, LogicNode, Purpose, Reading, M, pure, skip, or_throw, outcome, call, gets, modify,
  when, catch, set_session, new_session, ◌>>=◌, ◌>>◌,
}
use chat_server.UserMgr.{remove_user_session}

-- `async_write` of the front of the send queue.
write_front : Session → Session
write_front s = elim s.send_que [
  | [] ↦ s
  | node ∷ _ ↦ record s { writes = s.writes ++ wire node ∷ [] }
]

-- The push of `send`, which starts a write only if the queue was empty.
pub enqueue : MsgNode → Session → Session
enqueue node s =
    let s' = record s { send_que = s.send_que ++ node ∷ [] } in
    if ltb 1 (length s'.send_que) then s' else write_front s'

-- `send(const char *msg, short body_len, short msg_id)` for a length that is not negative.
pub send_bytes : Str → ℕ → ℤ → Session → Session
send_bytes msg body_len msg_id s =
    if leb max_sendque (length s.send_que)
    then s
    else if body_len == 0 || ltb max_length body_len
    then s
    else enqueue (send_node msg body_len msg_id) s

-- `send(std::string msg, short msgid)`
pub send_text : Str → ℤ → Session → Session
send_text msg msg_id s =
    if ltb (2 ^ 15 - 1) (length msg) then s else send_bytes msg (length msg) msg_id s

-- `send` with the constructor of its node a copy at a time.
unfoldable pub try_send : Str → ℤ → Session → Outcome Session
unfolding enqueue write_front make_send_node
try_send msg msg_id s =
    if ltb (2 ^ 15 - 1) (length msg)
    then Outcome.ok s
    else if leb max_sendque (length s.send_que)
    then Outcome.ok s
    else if length msg == 0 || ltb max_length (length msg)
    then Outcome.ok s
    else elim (make_send_node msg (length msg) msg_id) [
      | ok node ↦ ok (enqueue node s)
      | throws ↦ throws
      | fault ↦ fault
    ]

-- `handleWrite`, with whether the write failed, for a queue that holds the node that was written.
pub handle_write : Bool → Session → Session
handle_write failed s =
    if failed then s else write_front (record s { send_que = drop 1 s.send_que })

-- `handleWrite` for any queue: `pop` of an empty one is undefined.
unfoldable pub written : Bool → Session → Outcome Session
unfolding handle_write write_front
written true s = Outcome.ok (handle_write true s)
written false s = elim s.send_que [ [] ↦ Outcome.fault | _ ∷ _ ↦ Outcome.ok (handle_write false s) ]

module _ {S : Type 0} where
  unfoldable pub send : ℕ → Str → ℤ → M S (Unit {0})
  unfolding try_send
  send p msg msg_id = do
    s ← gets (λ w. w.sessions p)
    s' ← outcome (try_send msg msg_id s)
    modify (set_session p s')

  unfoldable pub wrote : ℕ → Bool → M S (Unit {0})
  unfolding written
  wrote p failed = do
    s ← gets (λ w. w.sessions p)
    s' ← outcome (written failed s)
    modify (set_session p s')

  unfoldable pub set_user_id : ℕ → ℤ → M S (Unit {0})
  set_user_id p uid = modify (λ w. set_session p (record (w.sessions p) { user_uid = uid }) w)

  -- `CServer::ClearSession`
  unfoldable pub clear_session : ℕ → M S (Unit {0})
  clear_session p =
      modify (λ w. record w { server_sessions = erase (w.sessions p).session_id w.server_sessions })

  -- `LogicSystem::postMsgToQue`; the notification only wakes the worker.
  unfoldable pub post_msg_to_que : LogicNode → M S (Unit {0})
  post_msg_to_que msg = modify (λ w. record w { msg_que = w.msg_que ++ msg ∷ [] })

  -- `asyncReadFull`: it clears `_data` and begins to read.
  unfoldable pub async_read_full : ℕ → Purpose → ℕ → M S (Unit {0})
  async_read_full p purpose want =
      modify
        (λ w. set_session p (record (w.sessions p) { reading = Reading.reading purpose [] want }) w)

  unfoldable pub async_read_head : ℕ → M S (Unit {0})
  unfolding async_read_full
  async_read_head p = async_read_full p Purpose.head head_total_len

-- The count as `close` and the login read it; `none` is an exception of `stoi`.
abbrev pub read_count : Str → Option ℤ
read_count text = if is_empty text then some (pos 0) else stoi text

abbrev pub decrement : ℤ → ℤ
decrement (pos n) = pos (n - 1)
decrement (negsuc n) = negsuc n

module _ {S : Type 0} (E : Services S) where
  -- The logged-in part of `CSession::close`.
  unfoldable pub log_out : ℕ → ℤ → M S (Unit {0})
  unfolding remove_user_session set_user_id
  log_out p uid = do
    rd_res ← call (E.redis_h_get login_count E.self_name)
    count ← or_throw (read_count rd_res)
    call (E.redis_h_set login_count E.self_name (to_string (decrement count)))
    remove_user_session uid
    set_user_id p (pos 0)

  -- `CSession::close`, as one piece: it reads and writes the counter without a lock, and
  -- Logic.Presence.Race takes these apart. `_socket.close()` is taken to return.
  unfoldable pub close : ℕ → M S (Unit {0})
  unfolding log_out
  close p = do
    s ← gets (λ w. w.sessions p)
    when (not s.b_close) (do
      when (is_pos s.user_uid) (log_out p s.user_uid)
      modify (λ w. set_session p (record (w.sessions p) { socket_open = false; b_close = true }) w))

  unfoldable pub close_and_clear : ℕ → M S (Unit {0})
  unfolding close clear_session
  close_and_clear p = do close p; clear_session p

-- `CServer::HandleAccept` of the session at a fresh pointer, and whether the accept failed.
module _ {S : Type 0} where
  unfoldable pub handle_accept : ℕ → Str → Bool → M S (Unit {0})
  unfolding async_read_head
  handle_accept p id failed_accept = when (not failed_accept) do
    modify (set_session p (new_session id))
    async_read_head p
    modify (λ w. record w { server_sessions = assign id p w.server_sessions })
