-- ===== src/Pool/Tests.antt =====
-- Runs of a pool.
use chat_server.Base.{ℕ, ◌≡◌, ◌==◌, ==_iff, refl, false, List, [], ◌∷◌}
use chat_server.Base.Dict.{Eq}
use chat_server.Pool.{get_connection, return_connection, close, get_con_non_block, destroy}
use chat_server.Pool.Balance.{Users, Act, acts}
use chat_server.Pool.Shared
use chat_server.Pool.Shared.{Shared}
use chat_server.Pool.Account.{Accounts, Owes, acts-Accounts}
use chat_server.Pool.Closing.{Run, here, returned}
use chat_server.Pool.Deadlock.{at_rest, interrupted, answered, close-or-deadlock}

instance abbrev nat_key : Eq ℕ
nat_key = record { beq = λ a b. a == b; beq_iff = ==_iff }

-- A pool of three connections, all at rest.
abbrev sample_users : Users ℕ
sample_users = record {
  pool = record { connections = 1 ∷ 2 ∷ 3 ∷ []; b_stop = false };
  held = [];
  dropped = [];
}

abbrev sample_acts : List Act
sample_acts = Act.takes ∷ Act.takes ∷ Act.returns 1 ∷ Act.closes ∷ Act.returns 0 ∷ Act.takes ∷ []

ends_dropped : (acts sample_acts sample_users).dropped ≡ 2 ∷ []
unfolding get_connection return_connection close
ends_dropped = refl

-- The check finds one connection broken while a user has another, and opens a new one.
abbrev sample_shared : Shared ℕ
sample_shared = record {
  kept = record { pool = sample_users.pool; fail_count = 0 };
  held = [];
  checking = [];
  dropped = [];
  freed = [];
  opened = [];
  cleared = [];
}

abbrev sample_shared_acts : List (Shared.Act ℕ)
sample_shared_acts =
    Shared.Act.probes
    ∷ Shared.Act.takes
    ∷ Shared.Act.answers false
    ∷ Shared.Act.reopens 4
    ∷ Shared.Act.returns 0
    ∷ []

ends_cleared : (Shared.acts sample_shared_acts sample_shared).kept.pool.connections ≡ 3 ∷ 4 ∷ 2 ∷ []
unfolding get_connection get_con_non_block return_connection destroy
ends_cleared = refl

acts-Accounts_example :
    Accounts 1 sample_shared (Shared.acts sample_shared_acts sample_shared)
    × Owes sample_shared (Shared.acts sample_shared_acts sample_shared)
acts-Accounts_example = acts-Accounts 1 sample_shared_acts sample_shared

close-or-deadlock_example :
    Run (at_rest 1) (interrupted 0)
    × (interrupted 0 ≡ interrupted 0)
    × Run (at_rest 1) (answered 0)
    × (answered 0 ≡ answered 0)
    × Run (at_rest 1) (returned 1 0)
    × Run (at_rest 1) (returned 0 1)
close-or-deadlock_example = close-or-deadlock 0 (interrupted 0) (answered 0) here here
