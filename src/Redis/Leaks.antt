-- ===== src/Redis/Leaks.antt =====
-- src/infra/redis/RedisMgr.cpp: the connections in the pool over any calls.
use chat_server.Base.{
  ℕ, ◌+◌, ◌≡◌, Bool, true, false, List, [], ◌∷◌, ◌++◌, length, length-append, Option, none, some,
  ◌≤◌, ◌⊎◌, inl, inr, refl, arith,
}
use chat_server.Base.Text.{Str, c_str, bytes}
use chat_server.Frame.{Outcome}
use chat_server.Pool.{Called, get_connection, return_connection}
use chat_server.Pool.Rotate.{pool_of}
use chat_server.Redis.{Reply, Hiredis, Redis, connected, get, set, h_set, h_get, h_del, h_get_reply}

pub data Command : Type 0 where
  gets : Str → Command
  sets : Str → Str → Command
  h_sets : Str → Str → Str → ℕ → Command
  h_gets : Str → Str → Command
  h_dels : Str → Str → Command

-- 1 for a call that throws.
abbrev thrown : {A : Type 0} → Called A → ℕ
thrown (Called.returned Outcome.throws) = 1
thrown _ = 0

h_get_reply-cases :
    (reply : Option Reply)
    → ((v : Str) × (h_get_reply reply ≡ Outcome.ok v)) ⊎ (h_get_reply reply ≡ Outcome.throws)
h_get_reply-cases none = inl ([], refl)
h_get_reply-cases (some Reply.nil) = inl ([], refl)
h_get_reply-cases (some (Reply.error s)) = inl ([], refl)
h_get_reply-cases (some (Reply.string s)) = inl (c_str s, refl)
h_get_reply-cases (some (Reply.status s)) = inl (c_str s, refl)
h_get_reply-cases (some (Reply.integer z)) = inr refl
h_get_reply-cases (some Reply.array) = inr refl

thrown-le : {A : Type 0} (x : Called A) → thrown x ≤ 1
thrown-le Called.blocks = omega arith
thrown-le (Called.returned (Outcome.ok a)) = omega arith
thrown-le (Called.returned Outcome.throws) = omega arith
thrown-le (Called.returned Outcome.fault) = omega arith

module _ {C S : Type 0} (H : Hiredis C S) where
  -- One call of the manager: whether it throws, and what it leaves.
  abbrev pub issue : Command → Redis C S → ℕ × Redis C S
  issue (gets key) r = let x = get H key r in (thrown x.0, x.1)
  issue (sets key value) r = let x = set H key value r in (thrown x.0, x.1)
  issue (h_sets key hkey value n) r = let x = h_set H key hkey value n r in (thrown x.0, x.1)
  issue (h_gets key hkey) r = let x = h_get H key hkey r in (thrown x.0, x.1)
  issue (h_dels key hkey) r = let x = h_del H key hkey r in (thrown x.0, x.1)

  -- A list of calls, and how many of them throw.
  unfoldable pub issues : List Command → Redis C S → ℕ × Redis C S
  issues [] r = (0, r)
  issues (c ∷ cs) r =
      let first = issue c r in let rest = issues cs first.1 in (first.0 + rest.0, rest.1)

  -- The calls that can throw are those of hGet.
  abbrev pub h_gets_of : List Command → ℕ
  h_gets_of [] = 0
  h_gets_of (h_gets key hkey ∷ cs) = h_gets_of cs + 1
  h_gets_of (_ ∷ cs) = h_gets_of cs

  IsCounted : Command → Redis C S → Type 0
  IsCounted c r = length (issue c r).1.pool.connections + (issue c r).0 ≡ length r.pool.connections

  with_pool : List C → Bool → S → Redis C S
  with_pool cs b s = record { pool = pool_of cs b; server = s }

  to_back : (c : C) (cs : List C) → length (cs ++ c ∷ []) + 0 ≡ length (c ∷ cs)
  to_back c cs = omega (arith, length-append cs (c ∷ []))

  -- The reply to HGET over `c`, and the server after it.
  abbrev replied : Str → Str → C → S → Option Reply × S
  replied key hkey c s = H.command c (bytes "HGET" ∷ key ∷ hkey ∷ []) s

  h_get-ok :
      (key hkey v : Str) (c : C) (cs : List C) (s : S)
      → h_get_reply (replied key hkey c s).0 ≡ Outcome.ok v
      → h_get H key hkey (with_pool (c ∷ cs) false s)
        ≡ (Called.returned (Outcome.ok v), with_pool (cs ++ c ∷ []) false (replied key hkey c s).1)
  unfolding with_pool h_get get_connection return_connection
  h_get-ok key hkey v c cs s e = rw (h_get, connected, e) refl

  h_get-throws :
      (key hkey : Str) (c : C) (cs : List C) (s : S)
      → h_get_reply (replied key hkey c s).0 ≡ Outcome.throws
      → h_get H key hkey (with_pool (c ∷ cs) false s)
        ≡ (Called.returned Outcome.throws, with_pool cs false (replied key hkey c s).1)
  unfolding with_pool h_get get_connection return_connection
  h_get-throws key hkey c cs s e = rw (h_get, connected, e) refl

  h_get-counted :
      (key hkey : Str) (c : C) (cs : List C) (s : S)
      → let x = h_get H key hkey (with_pool (c ∷ cs) false s) in
        length x.1.pool.connections + thrown x.0 ≡ length (c ∷ cs)
  unfolding with_pool
  h_get-counted key hkey c cs s = elim (h_get_reply-cases (replied key hkey c s).0) [
    | inl (v, e) ↦ rw (h_get-ok key hkey v c cs s e) (to_back c cs)
    | inr e ↦ rw (h_get-throws key hkey c cs s e) (omega arith)
  ]

  counted : (c : Command) (cs : List C) (b : Bool) (s : S) → IsCounted c (with_pool cs b s)
  unfolding IsCounted with_pool get set h_set h_get h_del get_connection return_connection
  counted (h_gets key hkey) cs true s = omega arith
  counted (h_gets key hkey) [] false s = omega arith
  counted (h_gets key hkey) (c ∷ cs) false s = h_get-counted key hkey c cs s
  counted (gets key) cs true s = omega arith
  counted (gets key) [] false s = omega arith
  counted (gets key) (c ∷ cs) false s = to_back c cs
  counted (sets key value) cs true s = omega arith
  counted (sets key value) [] false s = omega arith
  counted (sets key value) (c ∷ cs) false s = to_back c cs
  counted (h_sets key hkey value n) cs true s = omega arith
  counted (h_sets key hkey value n) [] false s = omega arith
  counted (h_sets key hkey value n) (c ∷ cs) false s = to_back c cs
  counted (h_dels key hkey) cs true s = omega arith
  counted (h_dels key hkey) [] false s = omega arith
  counted (h_dels key hkey) (c ∷ cs) false s = to_back c cs

  few-thrown :
      (c : Command) (cs : List Command) (pool : List C) (b : Bool) (s : S) (n : ℕ)
      → n ≤ h_gets_of cs
      → (issue c (with_pool pool b s)).0 + n ≤ h_gets_of (c ∷ cs)
  unfolding with_pool get set h_set h_del get_connection return_connection
  few-thrown (h_gets key hkey) cs pool b s n h =
      omega (arith, h, thrown-le (h_get H key hkey (with_pool pool b s)).0)
  few-thrown (gets key) cs pool true s n h = omega arith
  few-thrown (gets key) cs [] false s n h = omega arith
  few-thrown (gets key) cs (c ∷ pool) false s n h = omega arith
  few-thrown (sets key value) cs pool true s n h = omega arith
  few-thrown (sets key value) cs [] false s n h = omega arith
  few-thrown (sets key value) cs (c ∷ pool) false s n h = omega arith
  few-thrown (h_sets key hkey value k) cs pool true s n h = omega arith
  few-thrown (h_sets key hkey value k) cs [] false s n h = omega arith
  few-thrown (h_sets key hkey value k) cs (c ∷ pool) false s n h = omega arith
  few-thrown (h_dels key hkey) cs pool true s n h = omega arith
  few-thrown (h_dels key hkey) cs [] false s n h = omega arith
  few-thrown (h_dels key hkey) cs (c ∷ pool) false s n h = omega arith

  -- Over any calls of get, set, hSet, hGet and hDel, one after the other, on any pool and whatever
  -- Redis replies to each of them, where a call that would wait is passed over: the connections in
  -- the pool at the end and the calls that threw are together as many as the connections at the
  -- start; and the calls that threw are at most those of hGet. So the calls that do not throw lose no
  -- connection, and those that do lose one each.
  pub issues-connections :
      (cs : List Command) (r : Redis C S)
      → (length (issues cs r).1.pool.connections + (issues cs r).0 ≡ length r.pool.connections)
        × ((issues cs r).0 ≤ h_gets_of cs)
  unfolding issues IsCounted with_pool
  issues-connections [] r = omega arith
  issues-connections (c ∷ cs) r =
      let (kept, few) = issues-connections cs (issue c r).1 in
      (
        omega (arith, kept, counted c r.pool.connections r.pool.b_stop r.server),
        few-thrown c cs r.pool.connections r.pool.b_stop r.server (issues cs (issue c r).1).0 few,
      )
