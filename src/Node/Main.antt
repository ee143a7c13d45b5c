-- ===== src/Node/Main.antt =====
-- src/app/ChatServer.cpp: `main` around the life of the node.
use chat_server.Base.{◌≡◌, Bool, if◌then◌else◌, List, []}
use chat_server.Base.Text.{Str, bytes}
use chat_server.Domain.{login_count}
use chat_server.Services.{Services, HashLaws}
use chat_server.Frame.{Outcome}
use chat_server.World.{World, M, pure, skip, call, gets, outcome, catch, ◌>>=◌, ◌>>◌}
use chat_server.Node.{Event, start_node, life}

-- `main` returns, or waits for good in `close` of the Redis pool, or the process ends in
-- `std::terminate`: an exception that leaves the block while the thread of the gRPC server runs
-- destroys a joinable thread.
pub data Ending : Type 0 where
  returned : Ending
  hangs : Ending
  terminated : Ending

module _ {S : Type 0} (E : Services S) where
  -- The text of the counter in Redis.
  abbrev pub stored_count : World S → Str
  stored_count w = (E.redis_h_get login_count E.self_name w.outside).0

module _ {S : Type 0} (E : Services S) (redis_h_del : Str → Str → S → Bool × S)
    (redis_close : S → Bool) where
  -- `main`, by whether the gRPC server could be built, whether the port of the clients could be
  -- bound, what `io_context.run` does until a signal stops it, and what the thread of the logic
  -- system still does after the counter was deleted: it goes on until the end of the process.
  -- Without a gRPC server its thread follows a null pointer. `redis_close` is whether `close` of the
  -- Redis pool returns. The join that follows is of a thread that the signal has shut down.
  unfoldable pub main : Bool → Bool → M S (Unit {0}) → M S (Unit {0}) → M S Ending
  unfolding start_node
  main builds listens run late = do
    start_node E
    if builds then skip else outcome Outcome.fault
    catch
        (do
          if listens then skip else outcome Outcome.throws
          run
          call (redis_h_del login_count E.self_name)
          late
          closes ← gets (λ w. redis_close w.outside)
          pure (if closes then Ending.returned else Ending.hangs))
        (pure Ending.terminated)

  module _ (laws : HashLaws E)
      (deleted : (k f : Str) (s : S) → (E.redis_h_get k f (redis_h_del k f s).1).0 ≡ []) where
    abbrev started : World S → World S
    started w = record w {
      outside = (E.redis_h_set login_count E.self_name (bytes "0") w.outside).1;
    }

    -- The world after the events of the node and the deletion of the counter.
    abbrev cleared : List Event → World S → World S
    cleared es w = record (life E es (started w)).1 {
      outside = (redis_h_del login_count E.self_name (life E es (started w)).1.outside).1;
    }
