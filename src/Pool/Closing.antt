-- ===== src/Pool/Closing.antt =====
-- src/infra/redis/RedisConPool.cpp: `close` while the check thread runs. `close` holds the lock and
-- waits for the thread, which takes the lock at some of its points.
use chat_server.Base.{
  ℕ, zero, suc, ◌+◌, ◌-◌, ◌≡◌, refl, Bool, true, false, ◌&&◌, Option, none, some, if◌then◌else◌,
}

-- Where the check thread is.
pub data Point : Type 0 where
  -- Between two checks.
  resting : Point
  -- `checkThreadPro` is about to ask for the size of the pool.
  sizing : Point
  -- Its first loop is at its test, or about to take a connection, or has its answer to the ping, with
  -- a number of turns left, or is about to give a connection back.
  testing : ℕ → Point
  taking : ℕ → Point
  pinging : ℕ → Point
  giving : ℕ → Point
  -- Its second loop is at its test, or `reconnect` has connected.
  counting : Point
  pushing : Point
  ended : Point

pub record Closing : Type 0 where
  pub point : Point
  pub b_stop : Bool
  pub connections : ℕ
  pub fail_count : ℕ
  -- `close` holds the lock and waits for the thread.
  pub joins : Bool
  pub closed : Bool

-- What the thread does next once it has the lock, if it needs it, with what Redis answers.
abbrev pub check_step : Bool → Closing → Option Closing
check_step ok s = elim s.point [
  | resting ↦ some (record s { point = if s.b_stop then ended else sizing })
  | sizing ↦ some (record s { point = testing s.connections })
  | testing zero ↦ some (record s { point = counting })
  | testing (suc n) ↦ some (record s { point = if s.b_stop then counting else taking n })
  | taking n ↦ if s.b_stop then some (record s { point = counting }) else elim s.connections [
    | zero ↦ some (record s { point = counting })
    | suc m ↦ some (record s { point = pinging n; connections = m })
  ]
  | pinging n ↦
      if ok
      then some (record s { point = giving n })
      else some (record s { point = testing n; fail_count = s.fail_count + 1 })
  | giving n ↦ some (record s {
    point = testing n;
    connections = if s.b_stop then s.connections else s.connections + 1;
  })
  | counting ↦ elim s.fail_count [
    | zero ↦ some (record s { point = resting })
    | suc m ↦ some (record s { point = if ok then pushing else resting })
  ]
  | pushing ↦ some (record s {
    point = counting;
    connections = s.connections + 1;
    fail_count = s.fail_count - 1;
  })
  | ended ↦ none
]

abbrev pub needs_lock : Point → Bool
needs_lock sizing = true
needs_lock (taking n) = true
needs_lock (giving n) = true
needs_lock pushing = true
needs_lock _ = false

-- `none` where the thread waits for the lock, or has ended.
abbrev pub check_move : Bool → Closing → Option Closing
check_move ok s = if needs_lock s.point && s.joins then none else check_step ok s

-- `close` takes the lock, and returns when the thread has ended.
abbrev pub close_move : Closing → Option Closing
close_move s =
    if s.joins
    then elim s.point [ ended ↦ some (record s { joins = false; closed = true }) | _ ↦ none ]
    else if s.closed
    then none
    else some (record s { b_stop = true; joins = true })

-- A user of the pool leaves another number of connections in it.
abbrev pub use_move : ℕ → Closing → Option Closing
use_move n s = if s.joins then none else some (record s { connections = n })

pub data Step (s : Closing) : Closing → Type 0 where
  checks : {t : Closing} → (ok : Bool) → check_move ok s ≡ some t → Step s t
  closes : {t : Closing} → close_move s ≡ some t → Step s t
  uses : {t : Closing} → (n : ℕ) → use_move n s ≡ some t → Step s t

pub data Run : Closing → Closing → Type 0 where
  here : {s : Closing} → Run s s
  then_on : {s t u : Closing} → Step s t → Run t u → Run s u

close-waits :
    (p : Point) (s : Closing)
    → s.point ≡ p
    → s.joins ≡ true
    → needs_lock p ≡ true
    → close_move s ≡ none
close-waits sizing s hp hj h = rw (hj, hp) refl
close-waits (taking n) s hp hj h = rw (hj, hp) refl
close-waits (giving n) s hp hj h = rw (hj, hp) refl
close-waits pushing s hp hj h = rw (hj, hp) refl
close-waits resting s hp hj h = cc
close-waits (testing n) s hp hj h = cc
close-waits (pinging n) s hp hj h = cc
close-waits counting s hp hj h = cc
close-waits ended s hp hj h = cc

Step-impossible : (s t : Closing) → s.joins ≡ true → needs_lock s.point ≡ true → ¬ Step s t
Step-impossible s t hj h (checks ok e) = cc (e, waits)
  where
    waits : check_move ok s ≡ none
    waits = rw (h, hj) refl
Step-impossible s t hj h (closes e) = cc (e, close-waits s.point s refl hj h)
Step-impossible s t hj h (uses n e) = cc (e, waits)
  where
    waits : use_move n s ≡ none
    waits = rw hj refl

-- Let `close` wait for the check thread while that is about to take the lock: before it asks for
-- the size, takes a connection, gives one back or adds a new one. Then no thread ever moves again,
-- whatever the others try, so `close` does not return.
pub Run-stuck : (s t : Closing) → s.joins ≡ true → needs_lock s.point ≡ true → Run s t → t ≡ s
Run-stuck s _ hj h here = refl
Run-stuck s t hj h (then_on step rest) = elim (Step-impossible s _ hj h step) [ ]

abbrev pub waiting : Point → ℕ → ℕ → Closing
waiting p connections fail_count = record {
  point = p;
  b_stop = true;
  connections = connections;
  fail_count = fail_count;
  joins = true;
  closed = false;
}

abbrev pub returned : ℕ → ℕ → Closing
returned connections fail_count = record (waiting ended connections fail_count) {
  joins = false;
  closed = true;
}

pub resting-returned : (m f : ℕ) → Run (waiting resting m f) (returned m f)
resting-returned m f = then_on (checks true refl) (then_on (closes refl) here)

counting-returned : (m f : ℕ) → Run (waiting counting m f) (returned m f)
counting-returned m zero = then_on (checks false refl) (resting-returned m zero)
counting-returned m (suc f) = then_on (checks false refl) (resting-returned m (suc f))

pub testing-returned : (n m f : ℕ) → Run (waiting (testing n) m f) (returned m f)
testing-returned zero m f = then_on (checks true refl) (counting-returned m f)
testing-returned (suc n) m f = then_on (checks true refl) (counting-returned m f)

-- Let `close` wait for the check thread at any other point. Then there is a run, in which Redis
-- does not answer any more, with which the thread ends and `close` returns.
Run-returned :
    (p : Point) (m f : ℕ) → needs_lock p ≡ false → (f' : ℕ) × Run (waiting p m f) (returned m f')
Run-returned resting m f h = (f, resting-returned m f)
Run-returned (testing n) m f h = (f, testing-returned n m f)
Run-returned (pinging n) m f h = (f + 1, then_on (checks false refl) (testing-returned n m (f + 1)))
Run-returned counting m f h = (f, counting-returned m f)
Run-returned ended m f h = (f, then_on (closes refl) here)
Run-returned sizing m f h = cc
Run-returned (taking n) m f h = cc
Run-returned (giving n) m f h = cc
Run-returned pushing m f h = cc
