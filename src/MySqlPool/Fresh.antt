-- ===== src/MySqlPool/Fresh.antt =====
-- src/infra/mysql/MySqlPool.cpp: what a check leaves in the pool.
use chat_server.Base.{
  ℕ, zero, suc, ◌+◌, ◌≡◌, Bool, false, List, [], ◌∷◌, ◌++◌, map, length, leb, Option, none, some,
  All, Bool-cases, inl, inr, arith,
}
use mathlib.Core.List.{append_assoc, append-nil}
use chat_server.Pool.{Kept, reconnect_loop}
use chat_server.MySqlPool.{
  SqlConnection, check_connection_one, check_connection_loop, reconnected, check_connection,
}

-- The connection was opened, or has answered a check, within the five seconds before.
abbrev pub IsFresh : {C : Type 0} → ℕ → SqlConnection C → Type 0
IsFresh timestamp c = leb (c.last_oper_time + 5) timestamp ≡ false

module _ {C : Type 0} (answers : C → Bool) (timestamp : ℕ) where
  abbrev Fresh : List (SqlConnection C) → Type 0
  Fresh cs = All (IsFresh timestamp) cs

  All-snoc :
      (cs : List (SqlConnection C)) (c : SqlConnection C)
      → Fresh cs
      → IsFresh timestamp c
      → Fresh (cs ++ c ∷ [])
  All-snoc [] c h hc = (hc, tt)
  All-snoc (d ∷ cs) c h hc = (h.0, All-snoc cs c h.1 hc)

  loop-Fresh :
      (cs ds : List (SqlConnection C)) (b : Bool) (f : ℕ)
      → Fresh ds
      → Fresh
          (check_connection_loop (length cs) answers timestamp (record {
            pool = record { connections = cs ++ ds; b_stop = b };
            fail_count = f;
          })).pool.connections
  unfolding check_connection_loop check_connection_one
  loop-Fresh [] ds b f h = h
  loop-Fresh (c ∷ cs) ds b f h = elim (Bool-cases (leb (c.last_oper_time + 5) timestamp)) [
    | inl old ↦ elim (Bool-cases (answers c.con)) [
      | inl good ↦
          rw (old, good, append_assoc cs ds _)
            (loop-Fresh cs _ b f (All-snoc ds _ h (ground arith)))
      | inr bad ↦ rw (old, bad) (loop-Fresh cs ds b (f + 1) h)
    ]
    | inr new ↦ rw (new, append_assoc cs ds _) (loop-Fresh cs _ b f (All-snoc ds c h new))
  ]

  reconnect-Fresh :
      (n : ℕ) (tries : List (Option C)) (k : Kept (SqlConnection C))
      → Fresh k.pool.connections
      → Fresh (reconnect_loop n (map (reconnected timestamp) tries) k).pool.connections
  unfolding reconnect_loop
  reconnect-Fresh zero tries k h = h
  reconnect-Fresh (suc n) [] k h = h
  reconnect-Fresh (suc n) (none ∷ tries) k h = h
  reconnect-Fresh (suc n) (some c ∷ tries) k h =
      reconnect-Fresh n tries _ (All-snoc k.pool.connections _ h (ground arith))

module _ {C : Type 0} where
  -- Let no other thread take a connection or give one back during a check. Then, whatever connections
  -- answer, and however the attempts to connect again end, after a check at a time each connection in
  -- the pool was opened, or has answered a check, in the five seconds before.
  pub check_connection-IsFresh :
      (answers : C → Bool) (timestamp : ℕ) (tries : List (Option C)) (k : Kept (SqlConnection C))
      → All (IsFresh timestamp) (check_connection answers timestamp tries k).pool.connections
  unfolding check_connection
  check_connection-IsFresh answers timestamp tries k =
      reconnect-Fresh answers timestamp _ tries
        (check_connection_loop (length k.pool.connections) answers timestamp k)
        (rw (append-nil k.pool.connections) at
          (loop-Fresh answers timestamp k.pool.connections [] k.pool.b_stop k.fail_count tt))
