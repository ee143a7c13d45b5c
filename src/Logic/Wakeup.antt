-- ===== src/Logic/Wakeup.antt =====
-- src/application/LogicSystem.cpp: how postMsgToQue, the worker and the destructor meet at the lock
-- and the condition variable. A message is only counted here; its handling returns.
pub mod Invariant
pub mod Progress
pub mod Stop
mod Tests
use chat_server.Base.{
  ℕ, zero, suc, ◌+◌, ◌≡◌, ◌==◌, Bool, true, false, not, ◌&&◌, Option, none, some, if◌then◌else◌,
}

-- Where the worker is in `dealMsg`.
pub data Place : Type 0 where
  -- It is to take the lock, at the head of the loop or after it was woken.
  locking : Place
  -- At the test of the inner loop, which was true, or was false.
  testing : Place
  waiting : Place
  choosing : Place
  -- In `_consume.wait`, without the lock.
  sleeping : Place
  -- With a message at the front, or in the loop after the stop.
  handling : Place
  draining : Place
  ended : Place

-- Where the destructor is: not begun, behind the flag, behind `notify_all`, or behind the join.
pub data Stopper : Type 0 where
  running flagged joining joined : Stopper

pub record System : Type 0 where
  pub worker : Place
  -- The size of `_msg_que`.
  pub que : ℕ
  -- Calls of `notify_one` that are to come, from posts that have given back the lock.
  pub owed : ℕ
  pub b_stop : Bool
  pub stopper : Stopper

abbrev pub start : System
start = record {
  worker = Place.locking;
  que = 0;
  owed = 0;
  b_stop = false;
  stopper = Stopper.running;
}

-- `_msg_que.empty()`
abbrev is_empty : ℕ → Bool
is_empty zero = true
is_empty (suc n) = false

abbrev holds_lock : Place → Bool
holds_lock locking = false
holds_lock sleeping = false
holds_lock ended = false
holds_lock _ = true

abbrev pub woken : Place → Place
woken sleeping = locking
woken locking = locking
woken testing = testing
woken waiting = waiting
woken choosing = choosing
woken handling = handling
woken draining = draining
woken ended = ended

-- `dealMsg`; `none` where the worker sleeps, has ended, or would take the front of an empty queue,
-- which is undefined. `_b_stop` is read again behind the inner loop.
unfoldable pub deal_move : System → Option System
deal_move s = elim s.worker [
  | locking ↦ some (record s { worker = testing })
  | testing ↦
      some (record s { worker = if is_empty s.que && not s.b_stop then waiting else choosing })
  | waiting ↦ some (record s { worker = sleeping })
  | choosing ↦ some (record s { worker = if s.b_stop then draining else handling })
  | sleeping ↦ none
  | handling ↦ elim s.que [ zero ↦ none | suc n ↦ some (record s { worker = locking; que = n }) ]
  | draining ↦ elim s.que [
    | zero ↦ some (record s { worker = ended })
    | suc n ↦ some (record s { que = n })
  ]
  | ended ↦ none
]

-- `postMsgToQue` up to its unlock; `none` where it waits for the lock.
unfoldable pub post_move : System → Option System
post_move s =
    if holds_lock s.worker
    then none
    else some (record s { que = s.que + 1; owed = if s.que + 1 == 1 then s.owed + 1 else s.owed })

-- A `notify_one` that was to come.
unfoldable pub notify_move : System → Option System
notify_move s = elim s.owed [
  | zero ↦ none
  | suc n ↦ some (record s { worker = woken s.worker; owed = n })
]

-- `~LogicSystem`, which does not take the lock.
unfoldable pub stop_move : System → Option System
stop_move s = elim s.stopper [
  | running ↦ some (record s { b_stop = true; stopper = flagged })
  | flagged ↦ some (record s { worker = woken s.worker; stopper = joining })
  | joining ↦ elim s.worker [ ended ↦ some (record s { stopper = joined }) | _ ↦ none ]
  | joined ↦ none
]

-- A step of one of them. The wakings without a notification that the standard allows are left out.
pub data Step (s : System) : System → Type 0 where
  deals : {t : System} → deal_move s ≡ some t → Step s t
  posts : {t : System} → post_move s ≡ some t → Step s t
  notifies : {t : System} → notify_move s ≡ some t → Step s t
  stops : {t : System} → stop_move s ≡ some t → Step s t

pub data Reach : System → Type 0 where
  begins : Reach start
  goes : {s t : System} → Reach s → Step s t → Reach t
