-- ===== src/Redis.antt =====
-- src/infra/redis/RedisMgr.cpp: the calls of Redis, each over a connection of the pool. hiredis is
-- an argument, and so is the state `S` of the server behind it.
pub mod Calls
pub mod Leaks
pub mod Start
mod Tests
use chat_server.Base.Text.{c_str}
use chat_server.Base.{
  ℕ, zero, suc, Bool, true, false, ◌||◌, List, [], ◌∷◌, ◌++◌, ◌==◌, Option, none, some,
  if◌then◌else◌, take,
}
use chat_server.Base.Int.{ℤ, is_pos}
use chat_server.Base.Text.{Str, bytes, str_eq}
use chat_server.Frame.{Outcome}
use chat_server.Pool.{Pool, Got, Called, blocks, returned, get_connection, return_connection}

-- What a `redisReply` says, by its type.
pub data Reply : Type 0 where
  string : Str → Reply
  status : Str → Reply
  error : Str → Reply
  integer : ℤ → Reply
  nil : Reply
  array : Reply

-- `redisCommand` and `redisCommandArgv`: the arguments of the command, `none` for a null reply.
pub record Hiredis (C S : Type 0) : Type 0 where
  pub command : C → List Str → S → Option Reply × S

-- The manager, with the server's state.
pub record Redis (C S : Type 0) : Type 0 where
  pub pool : Pool C
  pub server : S

abbrev pub get_reply : Option Reply → Option Str
get_reply (some (string s)) = some (c_str s)
get_reply _ = none

abbrev pub set_reply : Option Reply → Bool
set_reply (some (status s)) = str_eq (c_str s) (bytes "OK") || str_eq (c_str s) (bytes "ok")
set_reply _ = false

abbrev pub h_set_reply : Option Reply → Bool
h_set_reply (some (integer z)) = true
h_set_reply _ = false

abbrev pub h_del_reply : Option Reply → Bool
h_del_reply (some (integer z)) = is_pos z
h_del_reply _ = false

-- The text of a reply is null for an integer or an array, of which no `std::string` can be made.
abbrev pub h_get_reply : Option Reply → Outcome Str
h_get_reply none = Outcome.ok []
h_get_reply (some nil) = Outcome.ok []
h_get_reply (some (error s)) = Outcome.ok []
h_get_reply (some (string s)) = Outcome.ok (c_str s)
h_get_reply (some (status s)) = Outcome.ok (c_str s)
h_get_reply (some (integer z)) = Outcome.throws
h_get_reply (some array) = Outcome.throws

module _ {C S : Type 0} (H : Hiredis C S) where
  -- How each call starts: by `getConnection`, and with a result of its own for a null pointer.
  abbrev pub connected :
      {A : Type 0} → A → (C → Redis C S → Called A × Redis C S) → Redis C S → Called A × Redis C S
  connected failed k r = elim (get_connection r.pool).0 [
    | Got.waits ↦ (blocks, r)
    | Got.nullptr ↦ (returned (Outcome.ok failed), r)
    | Got.got c ↦ k c (record r { pool = (get_connection r.pool).1 })
  ]

  -- One command, and the connection goes back whatever the reply is.
  abbrev pub one_command :
      {A : Type 0} → List Str → (Option Reply → A) → C → Redis C S → Called A × Redis C S
  one_command args decide c r = (
    returned (Outcome.ok (decide (H.command c args r.server).0)),
    record { pool = return_connection c r.pool; server = (H.command c args r.server).1 },
  )

  -- `none` is `false`.
  unfoldable pub get : Str → Redis C S → Called (Option Str) × Redis C S
  get key = connected none (one_command (bytes "GET" ∷ c_str key ∷ []) get_reply)

  unfoldable pub set : Str → Str → Redis C S → Called Bool × Redis C S
  set key value =
      connected false (one_command (bytes "SET" ∷ c_str key ∷ c_str value ∷ []) set_reply)

  -- `hSet(const char *, const char *, const char *, size_t)`, of a value with its length.
  unfoldable pub h_set : Str → Str → Str → ℕ → Redis C S → Called Bool × Redis C S
  h_set key hkey hvalue hvaluelen =
      connected false (
        one_command (bytes "HSET" ∷ c_str key ∷ c_str hkey ∷ take hvaluelen hvalue ∷ [])
          h_set_reply)

  pub h_del : Str → Str → Redis C S → Called Bool × Redis C S
  h_del key filed =
      connected false (one_command (bytes "HDEL" ∷ c_str key ∷ c_str filed ∷ []) h_del_reply)

  -- Where the text of the reply is null, the exception leaves the connection out of the pool.
  unfoldable pub h_get : Str → Str → Redis C S → Called Str × Redis C S
  h_get key hkey = connected [] λ c r.
      let answer = H.command c (bytes "HGET" ∷ key ∷ hkey ∷ []) r.server in
      elim (h_get_reply answer.0) [
        | Outcome.ok value ↦ (
          returned (Outcome.ok value),
          record { pool = return_connection c r.pool; server = answer.1 },
        )
        | Outcome.throws ↦ (returned Outcome.throws, record r { server = answer.1 })
        | Outcome.fault ↦ (returned Outcome.fault, record r { server = answer.1 })
      ]
