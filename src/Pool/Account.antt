-- ===== src/Pool/Account.antt =====
-- src/infra/redis/RedisConPool.cpp, src/infra/mysql/MySqlPool.cpp: every connection is accounted for while the check runs beside
-- the users of the pool.
use chat_server.Base.{
  ℕ, zero, suc, ◌+◌, ◌≡◌, refl, ap, Bool, true, false, List, [], ◌∷◌, length, none, some, arith,
  Bool-cases, Option-cases, inl, inr, ◌⊎◌,
}
use chat_server.Base.Dict.{Eq}
use chat_server.Pool.{
  get_connection, return_connection, close, get_con_non_block, destroy, check_one,
}
use chat_server.Pool.Balance.{pick, without, count, count-append, count-without}
use chat_server.Pool.Shared.{
  Shared, Act, takes, returns, closes, probes, answers, draws, puts_back, reopens, destroys,
  given_back, act, acts,
}

module _ {C : Type 0} where
  abbrev shared : List C → Bool → ℕ → Shared C → Shared C
  shared cs b n u = record u {
    kept = record { pool = record { connections = cs; b_stop = b }; fail_count = n };
  }

  -- One turn of the check's loop is a probe and its answer, when it checks no other connection.
  check_one-acts :
      (ping : C → Bool) (cs : List C) (b : Bool) (n : ℕ) (u : Shared C)
      → (check_one ping (shared cs b n u).kept ≡ none)
        ⊎ ((c : C) × (check_one ping (shared cs b n u).kept
              ≡ some
                  (act
                    (answers (ping c))
                    (act probes (record (shared cs b n u) { checking = [] }))).kept))
  unfolding check_one get_con_non_block return_connection
  check_one-acts ping cs true n u = inl refl
  check_one-acts ping [] false n u = inl refl
  check_one-acts ping (c ∷ cs) false n u =
      inr (c, elim (Bool-cases (ping c)) [ inl h ↦ rw h refl | inr h ↦ rw h refl ])

  -- What the check still has to open anew, and what it opened, follow what it freed.
  abbrev pub Owes : Shared C → Shared C → Type 0
  Owes u v =
      v.kept.fail_count + length v.opened + length u.freed
      ≡ u.kept.fail_count + length u.opened + length v.freed

  takes-Owes :
      (cs : List C) (b : Bool) (n : ℕ) (u : Shared C)
      → Owes (shared cs b n u) (act takes (shared cs b n u))
        × Owes (shared cs b n u) (act probes (shared cs b n u))
  unfolding get_connection get_con_non_block
  takes-Owes cs true n u = (refl, refl)
  takes-Owes [] false n u = (refl, refl)
  takes-Owes (x ∷ cs) false n u = (refl, refl)

  answers-Owes :
      (ok : Bool) (xs : List C) (u : Shared C) → u.checking ≡ xs → Owes u (act (answers ok) u)
  answers-Owes ok [] u h = rw (act, h) refl
  answers-Owes true (d ∷ xs) u h = rw (act, h) refl
  answers-Owes false (d ∷ xs) u h = rw (act, h) (omega arith)

  draws-Owes :
      (cs : List C) (b : Bool) (n : ℕ) (u : Shared C)
      → Owes (shared cs b n u) (act draws (shared cs b n u))
  draws-Owes [] b n u = refl
  draws-Owes (x ∷ cs) b n u = refl

  puts_back-Owes : (xs : List C) (u : Shared C) → u.checking ≡ xs → Owes u (act puts_back u)
  puts_back-Owes [] u h = rw (act, h) refl
  puts_back-Owes (d ∷ xs) u h = rw (act, h) refl

  reopens-Owes :
      (d : C) (cs : List C) (b : Bool) (n : ℕ) (u : Shared C)
      → Owes (shared cs b n u) (act (reopens d) (shared cs b n u))
  reopens-Owes d cs b zero u = refl
  reopens-Owes d cs b (suc n) u = omega arith

  act-Owes : (a : Act C) (u : Shared C) → Owes u (act a u)
  act-Owes takes u = (takes-Owes u.kept.pool.connections u.kept.pool.b_stop u.kept.fail_count u).0
  act-Owes (returns n) u = elim (Option-cases (pick n u.held)) [
    | inl h ↦ rw (act, h) refl
    | inr (d, h) ↦ rw (act, h) refl
  ]
  act-Owes closes u = refl
  act-Owes probes u = (takes-Owes u.kept.pool.connections u.kept.pool.b_stop u.kept.fail_count u).1
  act-Owes (answers ok) u = answers-Owes ok u.checking u refl
  act-Owes destroys u = refl
  act-Owes draws u = draws-Owes u.kept.pool.connections u.kept.pool.b_stop u.kept.fail_count u
  act-Owes puts_back u = puts_back-Owes u.checking u refl
  act-Owes (reopens d) u =
      reopens-Owes d u.kept.pool.connections u.kept.pool.b_stop u.kept.fail_count u

module _ {C : Type 0} ⦃e : Eq C⦄ where
  -- How often a connection is anywhere.
  abbrev pub total : C → Shared C → ℕ
  total c u =
      count c u.kept.pool.connections
      + count c u.held
      + count c u.checking
      + count c u.dropped
      + count c u.freed
      + count c u.cleared

  -- Each connection is somewhere as often as before, and once more for each time that it was opened.
  abbrev pub Accounts : C → Shared C → Shared C → Type 0
  Accounts c u v = total c v + count c u.opened ≡ total c u + count c v.opened

  given_back-total :
      (c d : C) (u : Shared C) → total c (given_back d u) ≡ total c u + count c (d ∷ [])
  unfolding return_connection
  given_back-total c d u = elim (Bool-cases u.kept.pool.b_stop) [
    | inl h ↦ rw h (ground arith)
    | inr h ↦ rw (h, count-append c u.kept.pool.connections (d ∷ [])) (omega arith)
  ]

  takes-Accounts :
      (c : C) (cs : List C) (b : Bool) (n : ℕ) (u : Shared C)
      → let v = record u {
        kept = record { pool = record { connections = cs; b_stop = b }; fail_count = n };
      } in
        Accounts c v (act takes v) × Accounts c v (act probes v)
  unfolding get_connection get_con_non_block
  takes-Accounts c cs true n u = (refl, refl)
  takes-Accounts c [] false n u = (refl, refl)
  takes-Accounts c (x ∷ cs) false n u = (ground arith, ground arith)

  returns-Accounts : (c : C) (n : ℕ) (u : Shared C) → Accounts c u (act (returns n) u)
  returns-Accounts c n u = elim (Option-cases (pick n u.held)) [
    | inl h ↦ rw (act, h) refl
    | inr (d, h) ↦
        rw (act, h, given_back-total c d (record u { held = without n u.held }))
          (omega (arith, count-without c d n u.held h))
  ]

  answers-Accounts :
      (c : C) (ok : Bool) (xs : List C) (u : Shared C)
      → u.checking ≡ xs
      → Accounts c u (act (answers ok) u)
  answers-Accounts c ok [] u h = rw (act, h) (omega (arith, ap (count c) h))
  answers-Accounts c true (d ∷ xs) u h =
      rw (act, h, given_back-total c d (record u { checking = xs }))
        (ground (arith, ap (count c) h))
  answers-Accounts c false (d ∷ xs) u h = rw (act, h) (ground arith)

  draws-Accounts :
      (c : C) (cs : List C) (b : Bool) (n : ℕ) (u : Shared C)
      → Accounts c (shared cs b n u) (act draws (shared cs b n u))
  draws-Accounts c [] b n u = refl
  draws-Accounts c (x ∷ cs) b n u = ground arith

  puts_back-Accounts :
      (c : C) (xs : List C) (u : Shared C) → u.checking ≡ xs → Accounts c u (act puts_back u)
  puts_back-Accounts c [] u h = rw (act, h) (omega (arith, ap (count c) h))
  puts_back-Accounts c (d ∷ xs) u h =
      rw (act, h, count-append c u.kept.pool.connections (d ∷ [])) (ground (arith, ap (count c) h))

  reopens-Accounts :
      (c d : C) (n : ℕ) (u : Shared C) → u.kept.fail_count ≡ n → Accounts c u (act (reopens d) u)
  reopens-Accounts c d zero u h = rw (act, h) refl
  reopens-Accounts c d (suc n) u h =
      rw (act, h, count-append c u.kept.pool.connections (d ∷ [])) (ground arith)

  act-Accounts : (c : C) (a : Act C) (u : Shared C) → Accounts c u (act a u)
  unfolding close destroy
  act-Accounts c takes u =
      (takes-Accounts c u.kept.pool.connections u.kept.pool.b_stop u.kept.fail_count u).0
  act-Accounts c (returns n) u = returns-Accounts c n u
  act-Accounts c closes u = refl
  act-Accounts c probes u =
      (takes-Accounts c u.kept.pool.connections u.kept.pool.b_stop u.kept.fail_count u).1
  act-Accounts c (answers ok) u = answers-Accounts c ok u.checking u refl
  act-Accounts c destroys u = rw (count-append c u.kept.pool.connections u.cleared) (omega arith)
  act-Accounts c draws u =
      draws-Accounts c u.kept.pool.connections u.kept.pool.b_stop u.kept.fail_count u
  act-Accounts c puts_back u = puts_back-Accounts c u.checking u refl
  act-Accounts c (reopens d) u = reopens-Accounts c d u.kept.fail_count u refl

  -- Whatever users and the check of the Redis or the MySQL pool do, in any order, and whether or not the pool is closed or
  -- destroyed meanwhile, each connection is in the pool, with the users, under the check, given back
  -- in vain, freed by the check or freed by the destructor as often as at the start, and once more for each time that the check opened it: none
  -- is lost or handed out twice. What the check counts as broken and what it has opened since
  -- grow together as much as what it freed.
  pub acts-Accounts :
      (c : C) (xs : List (Act C)) (u : Shared C) → Accounts c u (acts xs u) × Owes u (acts xs u)
  acts-Accounts c [] u = (refl, refl)
  acts-Accounts c (a ∷ rest) u =
      let (counts, owes) = acts-Accounts c rest (act a u) in
      (omega (arith, counts, act-Accounts c a u), omega (arith, owes, act-Owes a u))
