-- ===== src/MySqlPool/Steps.antt =====
-- src/infra/mysql/MySqlPool.cpp: a turn of the check is two steps of the pool that others share.
use chat_server.Base.{
  ℕ, ◌+◌, ◌≡◌, refl, Bool, false, List, [], ◌∷◌, map, leb, some, Bool-cases, inl, inr, ◌⊎◌,
}
use chat_server.Pool.{Kept}
use chat_server.Pool.Shared.{Shared, draws, puts_back, answers, act}
use chat_server.MySqlPool.{SqlConnection, check_connection_one}
use mathlib.Core.List.{map-append}

module _ {C : Type 0} where
  -- The pool without the times of the last use.
  abbrev timeless : Kept (SqlConnection C) → Kept C
  timeless k = record {
    pool = record { connections = map (λ c. c.con) k.pool.connections; b_stop = k.pool.b_stop };
    fail_count = k.fail_count;
  }

  abbrev kept : List (SqlConnection C) → Bool → ℕ → Kept (SqlConnection C)
  kept cs b n = record { pool = record { connections = cs; b_stop = b }; fail_count = n }

  abbrev drawn : Kept (SqlConnection C) → Shared C → Shared C
  drawn k u = act draws (record u { kept = timeless k; checking = [] })

  -- A turn with a connection takes it, and then gives it back or frees it.
  check_connection_one-acts :
      (ping : C → Bool) (timestamp : ℕ) (c : SqlConnection C) (rest : List (SqlConnection C))
      → (b : Bool) (n : ℕ) (u : Shared C)
      → (k : Kept (SqlConnection C)) × (check_connection_one ping timestamp (kept (c ∷ rest) b n)
          ≡ some k)
        × ((timeless k ≡ (act puts_back (drawn (kept (c ∷ rest) b n) u)).kept)
            ⊎ (timeless k ≡ (act (answers false) (drawn (kept (c ∷ rest) b n) u)).kept))
  unfolding check_connection_one
  check_connection_one-acts ping timestamp c rest b n u =
      elim (Bool-cases (leb (c.last_oper_time + 5) timestamp)) [
        | inl old ↦ elim (Bool-cases (ping c.con)) [
          | inl good ↦ rw (old, good) (_, refl, inl (rw (map-append (λ d. d.con) rest _) refl))
          | inr bad ↦ rw (old, bad) (_, refl, inr refl)
        ]
        | inr new ↦ rw new (_, refl, inl (rw (map-append (λ d. d.con) rest _) refl))
      ]
