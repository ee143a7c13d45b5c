-- ===== src/World.antt =====
-- The state of one chat node, as its parts share it, and the effect of a piece of code on it: it
-- returns, throws, or writes outside its memory. A piece of code runs whole; what the server's
-- threads interleave are such pieces.
pub mod Store
pub mod Keeps
pub mod Spares
pub mod Changes
pub mod Faultless
pub mod Built
pub mod Queue
pub mod Alike
use chat_server.Base.{ℕ, ◌==◌, Bool, true, false, if◌then◌else◌, Option, none, some, List, []}
use chat_server.Base.Int.{ℤ, pos}
use chat_server.Base.Text.{Str}
use chat_server.Base.Dict.{Dict}
use chat_server.Frame.{MsgNode, RecvNode, Outcome}

-- What a session's outstanding read is for: a head, or the body of a `RecvNode`.
pub data Purpose : Type 0 where
  head : Purpose
  body : RecvNode → Purpose

-- The read that a session waits for: its purpose, the bytes so far at the front of `_data`, and
-- the length wanted. `idle` is a session that reads no more.
pub data Reading : Type 0 where
  idle : Reading
  reading : Purpose → Str → ℕ → Reading

-- src/net/CSession.h
pub record Session : Type 0 where
  pub session_id : Str
  pub b_close : Bool
  pub socket_open : Bool
  pub user_uid : ℤ
  -- The front of the queue is the head of the list.
  pub send_que : List MsgNode
  -- The bytes of each `async_write` on the socket so far, oldest first.
  pub writes : List Str
  pub reading : Reading

-- `LogicNode`: a session, by its pointer, and a received message.
pub record LogicNode : Type 0 where
  pub session : ℕ
  pub recv_node : RecvNode

pub record World (S : Type 0) : Type 0 where
  -- Redis, MySQL and the other nodes.
  pub outside : S
  -- The session that each pointer leads to; a `shared_ptr` never dangles.
  pub sessions : ℕ → Session
  -- `CServer::_sessions`, by session id.
  pub server_sessions : Dict Str ℕ
  -- `UserMgr::_uid_to_session`
  pub uid_to_session : Dict ℤ ℕ
  -- `LogicSystem::_msg_que`, its front first.
  pub msg_que : List LogicNode

abbrev pub M : Type 0 → Type 0 → Type 0
M S A = World S → Outcome A × World S

-- How the rest of the code goes on from a result, and how a handler does from an exception.
abbrev pub resume : {S A B : Type 0} → (A → M S B) → Outcome A × World S → Outcome B × World S
resume k (Outcome.ok a, w) = k a w
resume k (Outcome.throws, w) = (Outcome.throws, w)
resume k (Outcome.fault, w) = (Outcome.fault, w)

abbrev pub recover : {S A : Type 0} → M S A → Outcome A × World S → Outcome A × World S
recover k (Outcome.ok a, w) = (Outcome.ok a, w)
recover k (Outcome.throws, w) = k w
recover k (Outcome.fault, w) = (Outcome.fault, w)

infixl 5 ◌>>=◌ ◌>>◌
abbrev pub ◌>>=◌ : {S A B : Type 0} → M S A → (A → M S B) → M S B
◌>>=◌ m k w = resume k (m w)

abbrev pub ◌>>◌ : {S A B : Type 0} → M S A → M S B → M S B
m >> k = m >>= λ _. k

module _ {S : Type 0} where
  abbrev pub pure : {A : Type 0} → A → M S A
  pure a w = (Outcome.ok a, w)

  abbrev pub skip : M S (Unit {0})
  skip w = (Outcome.ok tt, w)

  -- The value of a library call that may throw.
  abbrev pub or_throw : {A : Type 0} → Option A → M S A
  or_throw o w = elim o [ none ↦ (Outcome.throws, w) | some a ↦ (Outcome.ok a, w) ]

  abbrev pub outcome : {A : Type 0} → Outcome A → M S A
  outcome r w = (r, w)

  -- A call of a service.
  abbrev pub call : {A : Type 0} → (S → A × S) → M S A
  call f w = (Outcome.ok (f w.outside).0, record w { outside = (f w.outside).1 })

  abbrev pub gets : {A : Type 0} → (World S → A) → M S A
  gets f w = (Outcome.ok (f w), w)

  abbrev pub modify : (World S → World S) → M S (Unit {0})
  modify f w = (Outcome.ok tt, f w)

  abbrev pub when : Bool → M S (Unit {0}) → M S (Unit {0})
  when b m w = if b then m w else (Outcome.ok tt, w)

  -- `if (!o) { m }`, and `k` of what was found otherwise.
  abbrev pub if_found : {A B : Type 0} → Option A → M S B → (A → M S B) → M S B
  if_found none m k = m
  if_found (some a) m k = k a

  -- `try { m } catch (std::exception &e) { k }`
  abbrev pub catch : {A : Type 0} → M S A → M S A → M S A
  catch m k w = recover k (m w)

-- Write through a pointer.
unfoldable pub update : (ℕ → Session) → ℕ → Session → ℕ → Session
update h p s q = if p == q then s else h q

abbrev pub set_session : {S : Type 0} → ℕ → Session → World S → World S
set_session p s w = record w { sessions = update w.sessions p s }

-- The constructor `CSession::CSession`, under the id that the generator gave.
abbrev pub new_session : Str → Session
new_session id = record {
  session_id = id;
  b_close = false;
  socket_open = true;
  user_uid = pos 0;
  send_que = [];
  writes = [];
  reading = Reading.idle;
}
