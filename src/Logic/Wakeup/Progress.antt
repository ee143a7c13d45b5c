-- ===== src/Logic/Wakeup/Progress.antt =====
-- src/application/LogicSystem.cpp: no wake-up for a message is lost.
use chat_server.Base.{ℕ, zero, suc, ◌≡◌, ◌≢◌, inl, inr, refl, sym, Bool, true, false, some, arith}
use mathlib.Core.Path.{subst}
use chat_server.Logic.Wakeup.{
  Place, locking, testing, waiting, choosing, sleeping, handling, draining, ended, Stopper, System,
  deal_move, notify_move, Reach,
}
use chat_server.Logic.Wakeup.Invariant.{Fits, IsFit, state, Reach-IsFit}

-- The worker and the notifications that are to come, alone.
pub data Alone : System → System → Type 0 where
  here : {s : System} → Alone s s
  deals_on : {s t u : System} → deal_move s ≡ some t → Alone t u → Alone s u
  notifies_on : {s t u : System} → notify_move s ≡ some t → Alone t u → Alone s u

then_Alone : {s t u : System} → Alone s t → Alone t u → Alone s u
then_Alone here k = k
then_Alone (deals_on e h) k = deals_on e (then_Alone h k)
then_Alone (notifies_on e h) k = notifies_on e (then_Alone h k)

-- A message is handled, and the worker has not ended.
abbrev HandlesOne : System → ℕ → Type 0
HandlesOne s q = (t : System) × Alone s t × (t.que ≡ q) × IsFit t × (t.worker ≢ ended)

first_on : {s t : System} {q : ℕ} → deal_move s ≡ some t → HandlesOne t q → HandlesOne s q
first_on e (u, run, que, fit, going) = (u, deals_on e run, que, fit, going)

serves_draining : (q o : ℕ) (z : Stopper) → HandlesOne (state draining (suc q) o true z) q
unfolding deal_move
serves_draining q o z = first_on refl (state draining q o true z, here, refl, refl, λ e. cc)

serves_choosing : (q o : ℕ) (b : Bool) (z : Stopper) → HandlesOne (state choosing (suc q) o b z) q
unfolding deal_move
serves_choosing q o true z = first_on refl (serves_draining q o z)
serves_choosing q o false z =
    first_on {t = state handling (suc q) o false z} refl
      (first_on refl (state locking q o false z, here, refl, tt, λ e. cc))

serves_locking : (q o : ℕ) (b : Bool) (z : Stopper) → HandlesOne (state locking (suc q) o b z) q
unfolding deal_move
serves_locking q o b z =
    first_on {t = state testing (suc q) o b z} refl (first_on refl (serves_choosing q o b z))

serves_one :
    (p : Place) (q o : ℕ) (b : Bool) (z : Stopper)
    → Fits p (suc q) o b
    → p ≢ ended
    → HandlesOne (state p (suc q) o b z) q
unfolding deal_move notify_move
serves_one locking q o b z h g = serves_locking q o b z
serves_one testing q o b z h g = first_on refl (serves_choosing q o b z)
serves_one waiting q o b z h g = absurd (omega arith)
serves_one choosing q o b z h g = serves_choosing q o b z
serves_one sleeping q o b z (inl h) g = absurd (omega arith)
serves_one sleeping q zero b z (inr h) g = absurd (omega arith)
serves_one sleeping q (suc o) b z (inr h) g =
    let (t, run, que, fit, going) = serves_locking q o b z in
    (t, notifies_on refl run, que, fit, going)
serves_one handling q o b z h g = first_on refl (state locking q o b z, here, refl, tt, λ e. cc)
serves_one draining q o true z h g = serves_draining q o z
serves_one draining q o false z h g = cc
serves_one ended q o b z h g = elim (g refl) [ ]

serves_all :
    (n : ℕ) (s : System)
    → s.que ≡ n
    → IsFit s
    → s.worker ≢ ended
    → (t : System) × Alone s t × (t.que ≡ 0)
serves_all zero s e h g = (s, here, e)
serves_all (suc n) s e h g =
    let (t, run, que, fit, going) =
      subst
        (λ q.
          Fits s.worker q s.owed s.b_stop
          → HandlesOne (state s.worker q s.owed s.b_stop s.stopper) n)
        (sym e) (λ k. serves_one s.worker n s.owed s.b_stop s.stopper k g) h in
    let (u, more, none_left) = serves_all n t que fit going in (u, then_Alone run more, none_left)

-- In whatever order posts, the worker, notifications and the destructor have had their steps: while
-- the worker has not ended, there is a run of it and of the notifications that are still to come,
-- alone, after which every message has been handled. So no message waits for a wake-up that was lost.
pub Reach-served :
    (s : System) → Reach s → s.worker ≢ ended → (t : System) × Alone s t × (t.que ≡ 0)
Reach-served s r g = serves_all s.que s refl (Reach-IsFit s r) g
