-- ===== src/World/Queue.antt =====
-- Code that keeps what is known of every queued message, whatever it returns: rules for each way to
-- build it.
use mathlib.Core.Path.{subst}
use chat_server.Base.{
  ℕ, ◌≡◌, refl, sym, Bool, true, false, if◌then◌else◌, Option, none, some, List, All,
}
use chat_server.Frame.{Outcome}
use chat_server.World.{
  World, Session, LogicNode, M, set_session, resume, recover, pure, skip, or_throw, outcome, call,
  gets, modify, when, catch, ◌>>=◌, ◌>>◌,
}
use chat_server.World.Keeps.{Keeps, Keeps-at}

module _ (S : Type 0) (P : LogicNode → Type 0) where
  pub Guards : {A : Type 0} → M S A → Type 0
  Guards m = (w : World S) → All P w.msg_que → All P (m w).1.msg_que

  pub Guards-at :
      {A : Type 0} (m : M S A) → Guards m → (w : World S) → All P w.msg_que → All P (m w).1.msg_que
  unfolding Guards
  Guards-at m g = g

  pub Guards-bind :
      {A B : Type 0} (m : M S A) (k : A → M S B)
      → Guards m
      → ((a : A) → Guards (k a))
      → Guards (m >>= k)
  unfolding Guards
  Guards-bind {A} {B} m k hm hk w all = go (m w) (hm w all)
    where
      go : (r : Outcome A × World S) → All P r.1.msg_que → All P (resume k r).1.msg_que
      go (Outcome.ok a, v) e = hk a v e
      go (Outcome.throws, v) e = e
      go (Outcome.fault, v) e = e

  pub Guards-then : {A B : Type 0} (m : M S A) (k : M S B) → Guards m → Guards k → Guards (m >> k)
  Guards-then m k hm hk = Guards-bind m (λ _. k) hm (λ _. hk)

  pub Guards-catch : {A : Type 0} (m k : M S A) → Guards m → Guards k → Guards (catch m k)
  unfolding Guards
  Guards-catch {A} m k hm hk w all = go (m w) (hm w all)
    where
      go : (r : Outcome A × World S) → All P r.1.msg_que → All P (recover k r).1.msg_que
      go (Outcome.ok a, v) e = e
      go (Outcome.throws, v) e = hk v e
      go (Outcome.fault, v) e = e

  pub Guards-pure : {A : Type 0} (a : A) → Guards (pure a)
  unfolding Guards
  Guards-pure a w all = all

  pub Guards-skip : Guards skip
  unfolding Guards
  Guards-skip w all = all

  pub Guards-or_throw : {A : Type 0} (o : Option A) → Guards (or_throw o)
  unfolding Guards
  Guards-or_throw none w all = all
  Guards-or_throw (some a) w all = all

  pub Guards-outcome : {A : Type 0} (o : Outcome A) → Guards (outcome o)
  unfolding Guards
  Guards-outcome o w all = all

  pub Guards-call : {A : Type 0} (g : S → A × S) → Guards (call g)
  unfolding Guards
  Guards-call g w all = all

  pub Guards-gets : {A : Type 0} (g : World S → A) → Guards (gets g)
  unfolding Guards
  Guards-gets g w all = all

  pub Guards-if :
      {A : Type 0} (b : Bool) (m k : M S A) → Guards m → Guards k → Guards (if b then m else k)
  Guards-if true m k hm hk = hm
  Guards-if false m k hm hk = hk

  pub Guards-when : (b : Bool) (m : M S (Unit {0})) → Guards m → Guards (when b m)
  unfolding Guards
  Guards-when true m hm w all = hm w all
  Guards-when false m hm w all = all

  pub Guards-modify :
      (g : World S → World S)
      → ((w : World S) → All P w.msg_que → All P (g w).msg_que)
      → Guards (modify g)
  unfolding Guards
  Guards-modify g h = h

  -- Code that leaves the queue alone.
  pub Guards-apart :
      (g : World S → World S) → ((w : World S) → (g w).msg_que ≡ w.msg_que) → Guards (modify g)
  unfolding Guards
  Guards-apart g e w all = subst (λ (que : List LogicNode). All P que) (sym (e w)) all

  pub Guards-set_session :
      (p : ℕ) (f : Session → Session) → Guards (modify (λ w. set_session p (f (w.sessions p)) w))
  Guards-set_session p f = Guards-apart _ (λ w. refl)

  pub Guards-stays :
      {A : Type 0} (m : M S A) → ((w : World S) → (m w).1.msg_que ≡ w.msg_que) → Guards m
  unfolding Guards
  Guards-stays m e w all = subst (λ (que : List LogicNode). All P que) (sym (e w)) all

  pub Guards-Keeps : {A : Type 0} (m : M S A) → Keeps (λ (w : World S). w.msg_que) m → Guards m
  unfolding Guards
  Guards-Keeps m k w all =
      subst (λ (que : List LogicNode). All P que)
        (sym (Keeps-at (λ (v : World S). v.msg_que) m k w)) all

pub ruleset guards = (
  Guards-bind, Guards-then, Guards-catch, Guards-pure, Guards-skip, Guards-or_throw, Guards-outcome,
  Guards-call, Guards-gets, Guards-if, Guards-when,
)
