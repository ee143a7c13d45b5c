-- ===== src/Node/Online.antt =====
-- src/app/ChatServer.cpp: which connections are open, and which of them are logged in, after some
-- events.
use chat_server.Base.{
  ℕ, ◌+◌, ◌-◌, ◌<◌, ◌^◌, ◌==◌, ==_iff, ◌≡◌, refl, Bool, true, false, not, ◌&&◌, ◌||◌, List, [], ◌∷◌,
  length, Bool-cases, inl, inr, if◌then◌else◌, arith,
}
use chat_server.Base.Int.{is_pos}
use chat_server.Node.{Event, accepts, logs_in, closes}

abbrev pub elem : ℕ → List ℕ → Bool
elem p [] = false
elem p (q ∷ qs) = q == p || elem p qs

abbrev pub without : ℕ → List ℕ → List ℕ
without p [] = []
without p (q ∷ qs) = let rest = without p qs in if q == p then rest else q ∷ rest

-- The open connections, and those of them whose login is bound.
pub record Online : Type 0 where
  pub open_ones : List ℕ
  pub online : List ℕ

abbrev pub nobody : Online
nobody = record { open_ones = []; online = [] }

abbrev pub after : Event → Online → Online
after (accepts p id) o = record o { open_ones = p ∷ o.open_ones }
after (logs_in p uid) o = record o { online = p ∷ o.online }
after (closes p) o = record { open_ones = without p o.open_ones; online = without p o.online }

abbrev pub after_all : List Event → Online → Online
after_all [] o = o
after_all (e ∷ es) o = after_all es (after e o)

-- An accepted connection is a new one; a login is on an open connection without one, of a user with
-- a positive uid, while fewer than the largest `int` are logged in; an open connection is closed.
abbrev pub IsPossible : Event → Online → Type 0
IsPossible (accepts p id) o = elem p o.open_ones ≡ false
IsPossible (logs_in p uid) o =
    (elem p o.open_ones ≡ true)
    × (elem p o.online ≡ false)
    × (is_pos uid ≡ true)
    × (length o.online < 2 ^ 31 - 1)
IsPossible (closes p) o = elem p o.open_ones ≡ true

abbrev pub ArePossible : List Event → Online → Type 0
ArePossible [] o = Unit {0}
ArePossible (e ∷ es) o = IsPossible e o × ArePossible es (after e o)

abbrev pub NoDup : List ℕ → Type 0
NoDup [] = Unit {0}
NoDup (q ∷ qs) = (elem q qs ≡ false) × NoDup qs

pub elem-without : (p q : ℕ) (xs : List ℕ) → elem q (without p xs) ≡ (elem q xs && not (p == q))
elem-without p q [] = refl
elem-without p q (x ∷ xs) = ground (arith, elem-without p q xs)

pub elem-without_self : (p : ℕ) (xs : List ℕ) → elem p (without p xs) ≡ false
elem-without_self p xs = ground (arith, elem-without p p xs)

pub elem-without_other :
    (p q : ℕ) (xs : List ℕ) → (p == q) ≡ false → elem q (without p xs) ≡ elem q xs
elem-without_other p q xs h = ground (arith, elem-without p q xs)

pub without-absent : (p : ℕ) (xs : List ℕ) → elem p xs ≡ false → without p xs ≡ xs
without-absent p [] h = refl
without-absent p (x ∷ xs) h = ground (arith, without-absent p xs)

pub length-without :
    (p : ℕ) (xs : List ℕ) → NoDup xs → elem p xs ≡ true → length xs ≡ length (without p xs) + 1
length-without p [] d h = cc
length-without p (x ∷ xs) d h = elim (Bool-cases (x == p)) [
  | inl e ↦
      let absent : elem p xs ≡ false = rw (← (==_iff x p).0 e) d.0 in
      rw (e, without-absent p xs absent) (omega arith)
  | inr e ↦ rw e (omega (arith, length-without p xs d.1 (rw e at h)))
]

pub NoDup-without : (p : ℕ) (xs : List ℕ) → NoDup xs → NoDup (without p xs)
NoDup-without p [] d = tt
NoDup-without p (x ∷ xs) d = elim (Bool-cases (x == p)) [
  | inl e ↦ rw e (NoDup-without p xs d.1)
  | inr e ↦ rw e (rw (elem-without p x xs, d.0) refl, NoDup-without p xs d.1)
]
