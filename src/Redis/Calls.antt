-- ===== src/Redis/Calls.antt =====
-- src/infra/redis/RedisMgr.cpp: the connection of each call, and a value written and read back.
use chat_server.Base.Text.{c_str}
use chat_server.Base.{
  ℕ, ◌≡◌, refl, Bool, true, false, List, [], ◌∷◌, ◌++◌, Option, none, some, arith, take,
}
use chat_server.Base.Text.{Str, bytes}
use chat_server.Frame.{Outcome}
use chat_server.Pool.{Called, get_connection, return_connection}
use chat_server.Pool.Rotate.{rotated}
use chat_server.Redis.{
  Reply, Hiredis, Redis, connected, one_command, get_reply, set_reply, h_set_reply, h_del_reply,
  get, set, h_set, h_del,
}

module _ {C S : Type 0} (H : Hiredis C S) where
  one_call :
      {A : Type 0} (failed : A) (args : List Str) (decide : Option Reply → A) (cs : List C)
      (b : Bool) (s : S)
      → (connected H failed
          (one_command H args decide)
          (record { pool = record { connections = cs; b_stop = b }; server = s })).1.pool
        ≡ rotated (record { connections = cs; b_stop = b })
  unfolding get_connection return_connection
  one_call failed args decide cs true s = refl
  one_call failed args decide [] false s = refl
  one_call failed args decide (c ∷ cs) false s = refl

  -- Whatever Redis replies, a call of get, set, hSet or hDel leaves the pool with the connection
  -- that it used at the back, and leaves a closed or an empty pool as it was.
  pub calls-rotate :
      (key hkey value : Str) (n : ℕ) (r : Redis C S)
      → ((get H key r).1.pool ≡ rotated r.pool)
        × ((set H key value r).1.pool ≡ rotated r.pool)
        × ((h_set H key hkey value n r).1.pool ≡ rotated r.pool)
        × ((h_del H key hkey r).1.pool ≡ rotated r.pool)
  unfolding get set h_set h_del
  calls-rotate key hkey value n r = (
    one_call none (bytes "GET" ∷ c_str key ∷ []) get_reply r.pool.connections r.pool.b_stop
        r.server,
    one_call false (bytes "SET" ∷ c_str key ∷ c_str value ∷ []) set_reply r.pool.connections
        r.pool.b_stop r.server,
    one_call false (bytes "HSET" ∷ c_str key ∷ c_str hkey ∷ take n value ∷ []) h_set_reply
        r.pool.connections r.pool.b_stop r.server,
    one_call false (bytes "HDEL" ∷ c_str key ∷ c_str hkey ∷ []) h_del_reply r.pool.connections
        r.pool.b_stop r.server,
  )

  -- The documented behaviour of SET and GET on a server that answers: SET replies OK, and GET of its
  -- key after it, on any connection, replies with the value.
  abbrev pub Stores : Type 0
  Stores =
      (c d : C) (k v : Str) (s : S)
      → ((H.command c (bytes "SET" ∷ k ∷ v ∷ []) s).0 ≡ some (Reply.status (bytes "OK")))
        × ((H.command d (bytes "GET" ∷ k ∷ []) (H.command c (bytes "SET" ∷ k ∷ v ∷ []) s).1).0
            ≡ some (Reply.string v))

c_str-c_str : (s : Str) → c_str (c_str s) ≡ c_str s
c_str-c_str [] = refl
c_str-c_str (b ∷ s) = ground (arith, c_str-c_str s)

module _ {C S : Type 0} (H : Hiredis C S) where
  set-open :
      (key value : Str) (c : C) (cs : List C) (s : S)
      → Stores H
      → set H key value
          (record { pool = record { connections = c ∷ cs; b_stop = false }; server = s })
        ≡ (
          Called.returned (Outcome.ok true),
          record {
            pool = record { connections = cs ++ c ∷ []; b_stop = false };
            server = (H.command c (bytes "SET" ∷ c_str key ∷ c_str value ∷ []) s).1;
          },
        )
  unfolding set get_connection return_connection
  set-open key value c cs s stores = rw ((stores c c (c_str key) (c_str value) s).0)

  get-written :
      (key value : Str) (c : C) (cs : List C) (s : S)
      → Stores H
      → (get H key (record {
        pool = record { connections = cs ++ c ∷ []; b_stop = false };
        server = (H.command c (bytes "SET" ∷ c_str key ∷ c_str value ∷ []) s).1;
      })).0
        ≡ Called.returned (Outcome.ok (some (c_str value)))
  unfolding get get_connection return_connection
  get-written key value c [] s stores =
      rw ((stores c c (c_str key) (c_str value) s).1, c_str-c_str value)
  get-written key value c (d ∷ cs) s stores =
      rw ((stores c d (c_str key) (c_str value) s).1, c_str-c_str value)

  -- Let Redis keep what SET writes, and let the pool be open with a connection in it. Then a set
  -- succeeds, and a get of the key after it, on whatever connection, gives the value as far as its
  -- first null byte.
  get-set :
      (key value : Str) (c : C) (cs : List C) (s : S)
      → Stores H
      → let r =
          set H key value
            (record { pool = record { connections = c ∷ cs; b_stop = false }; server = s }) in
        (r.0 ≡ Called.returned (Outcome.ok true))
        × ((get H key r.1).0 ≡ Called.returned (Outcome.ok (some (c_str value))))
  get-set key value c cs s stores =
      rw (set-open key value c cs s stores) (refl, get-written key value c cs s stores)
