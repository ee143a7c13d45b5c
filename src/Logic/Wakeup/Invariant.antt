-- ===== src/Logic/Wakeup/Invariant.antt =====
-- src/application/LogicSystem.cpp: what is known at each point of the worker.
use chat_server.Base.{ℕ, zero, suc, ◌<◌, ◌≡◌, ◌⊎◌, inl, inr, refl, Bool, true, false, some, arith}
use mathlib.Core.Path.{subst}
use mathlib.Core.Option.{some-injective}
use chat_server.Logic.Wakeup.{
  Place, locking, testing, waiting, choosing, sleeping, handling, draining, ended, Stopper, running,
  flagged, joining, joined, System, woken, deal_move, post_move, notify_move, stop_move, Step,
  deals, posts, notifies, stops, Reach, begins, goes,
}

-- What is known of the queue, of the notifications to come and of the flag at each point.
abbrev pub Fits : Place → ℕ → ℕ → Bool → Type 0
Fits waiting q o b = q ≡ 0
Fits choosing q o b = (0 < q) ⊎ (b ≡ true)
Fits sleeping q o b = (q ≡ 0) ⊎ (0 < o)
Fits handling q o b = 0 < q
Fits draining q o b = b ≡ true
Fits ended q o b = b ≡ true
Fits _ q o b = Unit {0}

abbrev pub IsFit : System → Type 0
IsFit s = Fits s.worker s.que s.owed s.b_stop

abbrev pub state : Place → ℕ → ℕ → Bool → Stopper → System
state p q o b z = record { worker = p; que = q; owed = o; b_stop = b; stopper = z }

moved : {s t : System} → some s ≡ some t → IsFit s → IsFit t
moved {s} {t} e h = subst IsFit (some-injective s t e) h

deal-IsFit :
    (p : Place) (q o : ℕ) (b : Bool) (z : Stopper) (t : System)
    → Fits p q o b
    → deal_move (state p q o b z) ≡ some t
    → IsFit t
unfolding deal_move
deal-IsFit locking q o b z t h e = moved e tt
deal-IsFit testing zero o true z t h e = moved e (inr refl)
deal-IsFit testing zero o false z t h e = moved e refl
deal-IsFit testing (suc q) o b z t h e = moved e (inl (omega arith))
deal-IsFit waiting q o b z t h e = moved e (inl h)
deal-IsFit choosing q o true z t h e = moved e refl
deal-IsFit choosing q o false z t (inl h) e = moved e h
deal-IsFit choosing q o false z t (inr h) e = cc
deal-IsFit sleeping q o b z t h e = cc
deal-IsFit handling zero o b z t h e = cc
deal-IsFit handling (suc q) o b z t h e = moved e tt
deal-IsFit draining zero o b z t h e = moved e h
deal-IsFit draining (suc q) o b z t h e = moved e h
deal-IsFit ended q o b z t h e = cc

post-IsFit :
    (p : Place) (q o : ℕ) (b : Bool) (z : Stopper) (t : System)
    → Fits p q o b
    → post_move (state p q o b z) ≡ some t
    → IsFit t
unfolding post_move
post-IsFit locking q o b z t h e = moved e tt
post-IsFit sleeping zero o b z t h e = moved e (inr (omega arith))
post-IsFit sleeping (suc q) o b z t (inl h) e = absurd (omega arith)
post-IsFit sleeping (suc q) o b z t (inr h) e = moved e (inr (ground arith))
post-IsFit ended q o b z t h e = moved e h
post-IsFit testing q o b z t h e = cc
post-IsFit waiting q o b z t h e = cc
post-IsFit choosing q o b z t h e = cc
post-IsFit handling q o b z t h e = cc
post-IsFit draining q o b z t h e = cc

-- A worker that is woken, by a notification or by all of them.
woken-Fits : (p : Place) (q o o' : ℕ) (b : Bool) → Fits p q o b → Fits (woken p) q o' b
woken-Fits locking q o o' b h = tt
woken-Fits testing q o o' b h = tt
woken-Fits waiting q o o' b h = h
woken-Fits choosing q o o' b h = h
woken-Fits sleeping q o o' b h = tt
woken-Fits handling q o o' b h = h
woken-Fits draining q o o' b h = h
woken-Fits ended q o o' b h = h

notify-IsFit :
    (p : Place) (q o : ℕ) (b : Bool) (z : Stopper) (t : System)
    → Fits p q o b
    → notify_move (state p q o b z) ≡ some t
    → IsFit t
unfolding notify_move
notify-IsFit p q zero b z t h e = cc
notify-IsFit p q (suc o) b z t h e = moved e (woken-Fits p q (suc o) o b h)

-- The flag, once it is set.
set-Fits : (p : Place) (q o : ℕ) (b : Bool) → Fits p q o b → Fits p q o true
set-Fits locking q o b h = tt
set-Fits testing q o b h = tt
set-Fits waiting q o b h = h
set-Fits choosing q o b h = inr refl
set-Fits sleeping q o b h = h
set-Fits handling q o b h = h
set-Fits draining q o b h = refl
set-Fits ended q o b h = refl

stop-IsFit :
    (p : Place) (q o : ℕ) (b : Bool) (z : Stopper) (t : System)
    → Fits p q o b
    → stop_move (state p q o b z) ≡ some t
    → IsFit t
unfolding stop_move
stop-IsFit p q o b running t h e = moved e (set-Fits p q o b h)
stop-IsFit p q o b flagged t h e = moved e (woken-Fits p q o o b h)
stop-IsFit ended q o b joining t h e = moved e h
stop-IsFit locking q o b joining t h e = cc
stop-IsFit testing q o b joining t h e = cc
stop-IsFit waiting q o b joining t h e = cc
stop-IsFit choosing q o b joining t h e = cc
stop-IsFit sleeping q o b joining t h e = cc
stop-IsFit handling q o b joining t h e = cc
stop-IsFit draining q o b joining t h e = cc
stop-IsFit p q o b joined t h e = cc

Step-IsFit : (s t : System) → IsFit s → Step s t → IsFit t
Step-IsFit s t h (deals e) = deal-IsFit s.worker s.que s.owed s.b_stop s.stopper t h e
Step-IsFit s t h (posts e) = post-IsFit s.worker s.que s.owed s.b_stop s.stopper t h e
Step-IsFit s t h (notifies e) = notify-IsFit s.worker s.que s.owed s.b_stop s.stopper t h e
Step-IsFit s t h (stops e) = stop-IsFit s.worker s.que s.owed s.b_stop s.stopper t h e

pub Reach-IsFit : (s : System) → Reach s → IsFit s
Reach-IsFit _ begins = tt
Reach-IsFit t (goes {s = s} r step) = Step-IsFit s t (Reach-IsFit s r) step
