-- ===== src/Pool/Rotate.antt =====
-- src/infra/grpc/ChatConPool.cpp and its likes: a pool whose connections are used and given back.
use mathlib.Core.List.{Perm}
use mathlib.Core.List.Perm
use chat_server.Base.{◌≡◌, ◌≢◌, refl, Bool, true, false, List, [], ◌∷◌, ◌++◌, if◌then◌else◌, ◌∙◌}
use chat_server.Pool.{Pool}

-- A pool after one of its connections was used: the front goes to the back.
abbrev pub rotated : {C : Type 0} → Pool C → Pool C
rotated pool = if pool.b_stop then pool else elim pool.connections [
  | [] ↦ pool
  | c ∷ rest ↦ record pool { connections = rest ++ c ∷ [] }
]

-- A user of the pool does not wait: it is closed, or it has a connection.
abbrev pub IsReady : {C : Type 0} → Pool C → Type 0
IsReady pool = (pool.b_stop ≡ false) → pool.connections ≢ []

-- The same connections in some order, and open or closed alike.
pub record SamePool {C : Type 0} (p q : Pool C) : Type 0 where
  pub connections : Perm p.connections q.connections
  pub b_stop : p.b_stop ≡ q.b_stop

module _ {C : Type 0} where
  abbrev pub pool_of : List C → Bool → Pool C
  pool_of cs b = record { connections = cs; b_stop = b }

  pub append-ne-nil : (cs : List C) (c : C) → cs ++ c ∷ [] ≢ []
  append-ne-nil [] c = λ e. cc
  append-ne-nil (d ∷ cs) c = λ e. cc

  rotated-IsReady_by :
      (cs : List C) (b : Bool) → IsReady (pool_of cs b) → IsReady (rotated (pool_of cs b))
  rotated-IsReady_by cs true h = h
  rotated-IsReady_by [] false h = h
  rotated-IsReady_by (c ∷ cs) false h = λ e. append-ne-nil cs c

  pub rotated-IsReady : (pool : Pool C) → IsReady pool → IsReady (rotated pool)
  rotated-IsReady pool h = rotated-IsReady_by pool.connections pool.b_stop h

  pub Perm-to_back : (c : C) (cs : List C) → Perm (cs ++ c ∷ []) (c ∷ cs)
  Perm-to_back c [] = Perm.refl (c ∷ [])
  Perm-to_back c (d ∷ cs) = Perm.trans (Perm.cons d (Perm-to_back c cs)) (Perm.swap c d cs)

  rotated-SamePool_by : (cs : List C) (b : Bool) → SamePool (rotated (pool_of cs b)) (pool_of cs b)
  rotated-SamePool_by cs true = record { connections = Perm.refl cs; b_stop = refl }
  rotated-SamePool_by [] false = record { connections = Perm.refl []; b_stop = refl }
  rotated-SamePool_by (c ∷ cs) false = record { connections = Perm-to_back c cs; b_stop = refl }

  pub rotated-SamePool : (pool : Pool C) → SamePool (rotated pool) pool
  rotated-SamePool pool = rotated-SamePool_by pool.connections pool.b_stop

  pub SamePool-refl : (p : Pool C) → SamePool p p
  SamePool-refl p = record { connections = Perm.refl p.connections; b_stop = refl }

  pub SamePool-trans : {p q r : Pool C} → SamePool p q → SamePool q r → SamePool p r
  SamePool-trans h k = record {
    connections = Perm.trans h.connections k.connections;
    b_stop = h.b_stop ∙ k.b_stop;
  }
