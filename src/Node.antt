-- ===== src/Node.antt =====
-- src/app/ChatServer.cpp: the life of a node, from the start of `main` through the connections that
-- are accepted, logged in and closed.
pub mod Online
pub mod Tracks
pub mod Steps
pub mod Count
pub mod Listen
pub mod Accept
pub mod Main
pub mod System
pub mod Safe
pub mod Queue
pub mod Faults
pub mod Request
pub mod Delivery
pub mod Forward
pub mod Across
mod Tests
use chat_server.Base.{ℕ, List, [], ◌∷◌, false}
use chat_server.Base.Int.{ℤ}
use chat_server.Base.Text.{Str, bytes}
use chat_server.Domain.{login_count}
use chat_server.Services.{Services}
use chat_server.World.{M, skip, call, ◌>>=◌, ◌>>◌}
use chat_server.Session.{handle_accept, close}
use chat_server.Logic.Login.{bind_user}

-- A connection is accepted as the session at a pointer with an id, the login of a user is bound to
-- it, and it is closed.
pub data Event : Type 0 where
  accepts : ℕ → Str → Event
  logs_in : ℕ → ℤ → Event
  closes : ℕ → Event

module _ {S : Type 0} (E : Services S) where
  -- `main` sets the login counter of this server to zero before it listens.
  unfoldable pub start_node : M S (Unit {0})
  start_node = do call (E.redis_h_set login_count E.self_name (bytes "0")); skip

  abbrev pub event : Event → M S (Unit {0})
  event (accepts p id) = handle_accept p id false
  event (logs_in p uid) = bind_user E p uid
  event (closes p) = close E p

  abbrev pub life : List Event → M S (Unit {0})
  life [] = skip
  life (e ∷ es) = event e >> life es
