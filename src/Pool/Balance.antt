-- ===== src/Pool/Balance.antt =====
-- src/infra/grpc/ChatConPool.cpp and its likes: connections on their way between a pool and its
-- users.
use chat_server.Base.{
  ℕ, zero, suc, ◌+◌, ◌≡◌, refl, sym, ap, ◌∙◌, Bool, true, false, List, [], ◌∷◌, ◌++◌, Option, none,
  some, if◌then◌else◌, arith, Bool-cases, Option-cases, inl, inr,
}
use mathlib.Core.Option.{some-injective}
use chat_server.Base.Dict.{Eq}
use chat_server.Pool.{Pool, Got, get_connection, return_connection, close}

-- The pool, what its users hold, and what they gave back in vain.
pub record Users (C : Type 0) : Type 0 where
  pub pool : Pool C
  pub held : List C
  pub dropped : List C

-- A user asks for a connection, gives back the one at a place among those held, or the pool is
-- closed.
pub data Act : Type 0 where
  takes : Act
  returns : ℕ → Act
  closes : Act

module _ {C : Type 0} where
  abbrev pub pick : ℕ → List C → Option C
  pick n [] = none
  pick zero (c ∷ cs) = some c
  pick (suc n) (c ∷ cs) = pick n cs

  abbrev pub without : ℕ → List C → List C
  without n [] = []
  without zero (c ∷ cs) = cs
  without (suc n) (c ∷ cs) = c ∷ without n cs

  abbrev give_back : C → List C → Users C → Users C
  give_back c held u = record {
    pool = return_connection c u.pool;
    held = held;
    dropped = if u.pool.b_stop then c ∷ u.dropped else u.dropped;
  }

  abbrev pub act : Act → Users C → Users C
  act takes u = elim (get_connection u.pool).0 [
    | Got.got c ↦ record u { pool = (get_connection u.pool).1; held = c ∷ u.held }
    | _ ↦ u
  ]
  act (returns n) u = elim (pick n u.held) [ none ↦ u | some c ↦ give_back c (without n u.held) u ]
  act closes u = record u { pool = close u.pool }

  abbrev pub acts : List Act → Users C → Users C
  acts [] u = u
  acts (a ∷ rest) u = acts rest (act a u)

module _ {C : Type 0} ⦃e : Eq C⦄ where
  -- How often a connection is in a list.
  abbrev pub count : C → List C → ℕ
  count c [] = 0
  count c (d ∷ ds) = let rest = count c ds in if e.beq d c then rest + 1 else rest

  -- How often a connection is anywhere.
  abbrev pub total : C → Users C → ℕ
  total c u = count c u.pool.connections + count c u.held + count c u.dropped

  pub count-append : (c : C) (xs ys : List C) → count c (xs ++ ys) ≡ count c xs + count c ys
  count-append c [] ys = omega arith
  count-append c (x ∷ xs) ys = ground (arith, count-append c xs ys)

  pub count-without :
      (c d : C) (n : ℕ) (xs : List C)
      → pick n xs ≡ some d
      → count c xs ≡ count c (without n xs) + count c (d ∷ [])
  count-without c d n [] h = cc
  count-without c d zero (x ∷ xs) h = rw (some-injective x d h) (ground arith)
  count-without c d (suc n) (x ∷ xs) h = ground (arith, count-without c d n xs h)

  takes-total :
      (c : C) (cs : List C) (b : Bool) (held dropped : List C)
      → total c (
          act takes (record {
            pool = record { connections = cs; b_stop = b };
            held = held;
            dropped = dropped;
          }))
        ≡ count c cs + count c held + count c dropped
  unfolding get_connection
  takes-total c cs true held dropped = refl
  takes-total c [] false held dropped = refl
  takes-total c (x ∷ cs) false held dropped = ground arith

  give_back-total :
      (c d : C) (held : List C) (u : Users C)
      → total c (give_back d held u)
        ≡ count c u.pool.connections + (count c held + count c (d ∷ [])) + count c u.dropped
  unfolding return_connection
  give_back-total c d held u = elim (Bool-cases u.pool.b_stop) [
    | inl h ↦ rw h (ground arith)
    | inr h ↦ rw (h, count-append c u.pool.connections (d ∷ [])) (omega arith)
  ]

  returns-total : (c : C) (n : ℕ) (u : Users C) → total c (act (returns n) u) ≡ total c u
  returns-total c n u = elim (Option-cases (pick n u.held)) [
    | inl h ↦ rw (act, h)
    | inr (d, h) ↦
        rw (act, h, give_back-total c d (without n u.held) u)
          (ap (λ k. count c u.pool.connections + k + count c u.dropped)
            (sym (count-without c d n u.held h)))
  ]

  act-total : (c : C) (a : Act) (u : Users C) → total c (act a u) ≡ total c u
  unfolding close
  act-total c takes u = takes-total c u.pool.connections u.pool.b_stop u.held u.dropped
  act-total c (returns n) u = returns-total c n u
  act-total c closes u = refl

  -- Whatever users ask for and give back, in any order, and whether or not the pool is closed
  -- meanwhile, each connection is in the pool, with the users or given back in vain as often as at
  -- the start: none is lost or handed out twice.
  acts-total : (c : C) (xs : List Act) (u : Users C) → total c (acts xs u) ≡ total c u
  acts-total c [] u = refl
  acts-total c (a ∷ rest) u = acts-total c rest (act a u) ∙ act-total c a u
