-- ===== src/IoPool.antt =====
-- src/net/AsioIOServicePool.cpp: the contexts that run in threads of their own, and the turn in which
-- they are given out.
pub mod Stop
use native.Mathlib.Nat.{mod_self, mod-add-mod, mod-eq_of_lt, mod-lt}
use chat_server.Base.{
  ℕ, zero, suc, ◌+◌, ◌%◌, ◌<◌, ◌≡◌, ◌==◌, ==_iff, refl, sym, ap, ◌∙◌, true, false, if◌then◌else◌,
  Bool-cases, inl, inr, arith, Bool, not, ◌||◌, List, [], ◌∷◌, length, Option, none, some,
}

-- An `io_context`, with whether its `work` object is there. The thread of a context is in `run`
-- until the context is stopped or has no work left.
pub record Context : Type 0 where
  pub has_work : Bool
  pub stopped : Bool

pub record IoServicePool : Type 0 where
  pub io_services : List Context
  pub next_io_service : ℕ

-- `_io_services.size()`
abbrev pub size : IoServicePool → ℕ
size pool = length pool.io_services

abbrev contexts : ℕ → List Context
contexts zero = []
contexts (suc n) = record { has_work = true; stopped = false } ∷ contexts n

-- The constructor.
unfoldable pub io_service_pool : ℕ → IoServicePool
io_service_pool n = record { io_services = contexts n; next_io_service = 0 }

-- `stop` of one context: its work is gone after it, and was needed to find it.
abbrev stop_one : Context → Option Context
stop_one c = if c.has_work then some (record { has_work = false; stopped = true }) else none

abbrev stop_all : List Context → Option (List Context)
stop_all [] = some []
stop_all (c ∷ cs) = elim (stop_one c) [
  | none ↦ none
  | some d ↦ elim (stop_all cs) [ none ↦ none | some ds ↦ some (d ∷ ds) ]
]

-- `stop` as far as the joins of the threads; `none` is a null pointer that is followed.
unfoldable pub stop : IoServicePool → Option IoServicePool
stop pool = elim (stop_all pool.io_services) [
  | none ↦ none
  | some cs ↦ some (record pool { io_services = cs })
]

-- Whether `run` of a context returns.
abbrev pub returns : Context → Bool
returns c = c.stopped || not c.has_work

-- `getIOService`: the index of the context.
pub get_io_service : IoServicePool → ℕ × IoServicePool
get_io_service pool =
    let next = pool.next_io_service + 1 in
    (pool.next_io_service, record pool { next_io_service = if next == size pool then 0 else next })

-- The pool after a number of calls.
abbrev pub after : ℕ → IoServicePool → IoServicePool
after zero pool = pool
after (suc n) pool = after n (get_io_service pool).1

below : (next size : ℕ) → next < size → (next + 1 == size) ≡ false → next + 1 < size
below next size h e = ground arith

wrapped :
    (next size : ℕ) → next < size → (if next + 1 == size then 0 else next + 1) ≡ (next + 1) % size
wrapped next size h = elim (Bool-cases (next + 1 == size)) [
  | inl e ↦ rw (e, (==_iff (next + 1) size).0 e) (sym (mod_self size))
  | inr e ↦ rw e (sym (mod-eq_of_lt (below next size h e)))
]

after-size : (n : ℕ) (pool : IoServicePool) → size (after n pool) ≡ size pool
unfolding get_io_service
after-size zero pool = refl
after-size (suc n) pool = after-size n (get_io_service pool).1

after-next :
    (n : ℕ) (pool : IoServicePool)
    → pool.next_io_service < size pool
    → (after n pool).next_io_service ≡ (pool.next_io_service + n) % size pool
unfolding get_io_service
after-next zero pool h = rw start (sym (mod-eq_of_lt h))
  where
    start : pool.next_io_service + 0 ≡ pool.next_io_service
    start = omega arith
after-next (suc n) pool h =
    after-next n (get_io_service pool).1 (rw (wrapped next (size pool) h) (mod-lt _ (omega arith)))
    ∙ rw (wrapped next (size pool) h)
        (mod-add-mod (next + 1) (size pool) n ∙ ap (λ k. k % size pool) one_more)
  where
    next : ℕ
    next = pool.next_io_service

    one_more : next + 1 + n ≡ next + suc n
    one_more = omega arith

-- Let the next context be one of the pool's. Then the context that a call gives after any number
-- of calls before it is one of the pool's too, and the contexts are given in turn.
pub get_io_service-turn :
    (n : ℕ) (pool : IoServicePool)
    → pool.next_io_service < size pool
    → ((get_io_service (after n pool)).0 ≡ (pool.next_io_service + n) % size pool)
      × ((get_io_service (after n pool)).0 < size pool)
unfolding get_io_service
get_io_service-turn n pool h =
    (after-next n pool h, rw (after-next n pool h) (mod-lt _ (omega arith)))
