-- ===== src/Redis/Tests.antt =====
-- Runs of the Redis calls against a server with text keys alone.
use chat_server.Base.{
  ◌==◌, ◌+◌, ◌≤◌, length, List, ℕ, ◌≡◌, refl, false, [], ◌∷◌, Option, none, some, if◌then◌else◌,
}
use chat_server.Base.Text.{Str, bytes, str_key}
use chat_server.Base.Dict.{Dict, find, assign, find-assign, beq_refl}
use chat_server.Frame.{Outcome}
use chat_server.Redis.{Reply, Hiredis, Redis, get, h_get, h_set}
use chat_server.Redis.Leaks.{Command, issues, issues-connections}
use chat_server.Pool.{get_connection, return_connection}
use chat_server.Base.Int.{pos}
use chat_server.Redis.Start.{Attempt, redis_con_pool, open_contexts}
use chat_server.Redis.Calls.{Stores}

abbrev found_reply : Option Str → Reply
found_reply none = Reply.nil
found_reply (some v) = Reply.string v

-- A command with one argument reads its key, and one with two writes it.
abbrev texts : Hiredis ℕ (Dict Str Str)
texts = record {
  command = λ c args s. elim args [
    | name ∷ k ∷ [] ↦ (some (found_reply (find k s)), s)
    | name ∷ k ∷ v ∷ [] ↦ (some (Reply.status (bytes "OK")), assign k v s)
    | _ ↦ (none, s)
  ];
}

texts-Stores : Stores texts
texts-Stores c d k v s = (refl, rw (find-assign k k v s, beq_refl k))

abbrev sample_redis : Redis ℕ (Dict Str Str)
sample_redis = record { pool = record { connections = 1 ∷ 2 ∷ []; b_stop = false }; server = [] }

-- A pool of three turns, of which the second is refused.
abbrev sample_attempt : ℕ → Attempt ℕ
sample_attempt i = if i == 1 then Attempt.error_reply else Attempt.connected i

start_run :
    redis_con_pool 3 sample_attempt
    ≡ Outcome.ok (record { connections = 0 ∷ 2 ∷ []; b_stop = false })
unfolding redis_con_pool open_contexts
start_run = refl

-- A server that replies a number to every command.
abbrev numbers : Hiredis ℕ ℕ
numbers = record { command = λ c args s. (some (Reply.integer (pos s)), s + 1) }

abbrev sample_commands : List Command
sample_commands =
    Command.gets (bytes "a")
    ∷ Command.h_gets (bytes "a") (bytes "b")
    ∷ Command.h_sets (bytes "a") (bytes "b") (bytes "c") 1
    ∷ Command.h_gets (bytes "a") (bytes "b")
    ∷ []

abbrev number_redis : Redis ℕ ℕ
number_redis = record { pool = record { connections = 1 ∷ 2 ∷ 3 ∷ []; b_stop = false }; server = 0 }

lost_two : (issues numbers sample_commands number_redis).0 ≡ 2
unfolding issues get h_get h_set get_connection return_connection
lost_two = refl

issues-connections_example :
    (length (issues numbers sample_commands number_redis).1.pool.connections
        + (issues numbers sample_commands number_redis).0
      ≡ 3)
    × ((issues numbers sample_commands number_redis).0 ≤ 2)
issues-connections_example = issues-connections numbers sample_commands number_redis
