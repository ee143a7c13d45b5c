-- ===== src/MySqlPool/Start.antt =====
-- src/infra/mysql/MySqlPool.cpp: how the pool is opened at the start. The driver is an argument.
use chat_server.Base.{
  ℕ, zero, suc, ◌+◌, ◌<◌, ◌≡◌, length, length-append, arith, Option-cases, inl, inr, Bool, true,
  false, List, [], ◌∷◌, ◌++◌, Option, none, some,
}
use chat_server.Base.Text.{Str, bytes}
use chat_server.Pool.{Pool}
use chat_server.MySqlPool.{SqlConnection}
use chat_server.Config.{ConfigMap, config_value}

-- The pool, and whether its check thread runs.
pub record Started (C : Type 0) : Type 0 where
  pub pool : Pool (SqlConnection C)
  pub checks : Bool

module _ {C : Type 0} where
  -- The loop of the constructor over its turns, from what a turn connects, with its time; `none` is
  -- an `SQLException`, which leaves the `try` block, and with it the start of the check thread.
  unfoldable pub open_connections :
      (ℕ → Option (SqlConnection C)) → ℕ → ℕ → List (SqlConnection C) → Started C
  open_connections connect i zero cs = record {
    pool = record { connections = cs; b_stop = false };
    checks = true;
  }
  open_connections connect i (suc n) cs = elim (connect i) [
    | none ↦ record { pool = record { connections = cs; b_stop = false }; checks = false }
    | some c ↦ open_connections connect (i + 1) n (cs ++ c ∷ [])
  ]

  -- The constructor.
  unfoldable pub mysql_pool : ℕ → (ℕ → Option (SqlConnection C)) → Started C
  mysql_pool pool_size connect = open_connections connect 0 pool_size []

  -- The constructor of MySqlDao: the URL, the user, the password and the schema.
  unfoldable pub mysql_dao_pool :
      (Str → Str → Str → Str → ℕ → Option (SqlConnection C)) → ConfigMap → Started C
  mysql_dao_pool connect config = mysql_pool 5 (
      connect
        (config_value (bytes "MySql") (bytes "Host") config
          ++ bytes ":"
          ++ config_value (bytes "MySql") (bytes "Port") config)
        (config_value (bytes "MySql") (bytes "User") config)
        (config_value (bytes "MySql") (bytes "Passwd") config)
        (config_value (bytes "MySql") (bytes "Schema") config))

  open_connections-length :
      (connect : ℕ → Option (SqlConnection C)) (i n : ℕ) (cs : List (SqlConnection C))
      → let r = open_connections connect i n cs in
        (r.checks ≡ true → length r.pool.connections ≡ length cs + n)
        × (r.checks ≡ false → length r.pool.connections < length cs + n)
  unfolding open_connections
  open_connections-length connect i zero cs = (λ h. omega arith, λ h. cc)
  open_connections-length connect i (suc n) cs = elim (Option-cases (connect i)) [
    | inl h ↦ rw (open_connections, h) (λ e. cc, λ e. omega arith)
    | inr (c, h) ↦
        let rest = open_connections-length connect (i + 1) n (cs ++ c ∷ []) in
        let longer = length-append cs (c ∷ []) in
        rw (open_connections, h)
          (λ e. omega (arith, rest.0 e, longer), λ e. omega (arith, rest.1 e, longer))
  ]

  -- The check thread runs exactly where the constructor has opened as many connections as it was
  -- asked for; without it there are fewer.
  pub mysql_pool-length :
      (n : ℕ) (connect : ℕ → Option (SqlConnection C))
      → let r = mysql_pool n connect in
        (r.checks ≡ true → length r.pool.connections ≡ n)
        × (r.checks ≡ false → length r.pool.connections < n)
  unfolding mysql_pool
  mysql_pool-length n connect =
      let (full, fewer) = open_connections-length connect 0 n [] in
      (λ e. omega (arith, full e), λ e. omega (arith, fewer e))
