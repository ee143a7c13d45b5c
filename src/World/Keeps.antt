-- ===== src/World/Keeps.antt =====
-- Code that leaves a part of the world alone, whatever it returns: rules for each way to build it.
use chat_server.Base.{ℕ, ◌≡◌, refl, ◌∙◌, Bool, true, false, if◌then◌else◌, Option, none, some}
use chat_server.Base.Int.{ℤ}
use chat_server.Base.Text.{Str}
use chat_server.Base.Dict.{Dict}
use chat_server.Frame.{Outcome}
use chat_server.World.{
  World, Session, M, resume, pure, skip, or_throw, outcome, call, modify, when, if_found, ◌>>=◌,
  ◌>>◌,
}
use chat_server.UserMgr.{get_session, set_user_session}
use chat_server.Session.Sent.{send-sent}
use chat_server.Session.{send, set_user_id}

-- A part of the world that neither the services nor the sessions bear on.
pub record IsApart {S X : Type 0} (f : World S → X) : Type 0 where
  pub from_outside : (w : World S) (s : S) → f (record w { outside = s }) ≡ f w
  pub from_sessions : (w : World S) (h : ℕ → Session) → f (record w { sessions = h }) ≡ f w

module _ {S X : Type 0} (f : World S → X) where
  pub Keeps : {A : Type 0} → M S A → Type 0
  Keeps m = (w : World S) → f (m w).1 ≡ f w

  pub Keeps-at : {A : Type 0} (m : M S A) → Keeps m → (w : World S) → f (m w).1 ≡ f w
  unfolding Keeps
  Keeps-at m k = k

  pub Keeps-bind :
      {A B : Type 0} (m : M S A) (k : A → M S B)
      → Keeps m
      → ((a : A) → Keeps (k a))
      → Keeps (m >>= k)
  unfolding Keeps
  Keeps-bind {A} {B} m k hm hk w = go (m w) (hm w)
    where
      go : (r : Outcome A × World S) → f r.1 ≡ f w → f (resume k r).1 ≡ f w
      go (Outcome.ok a, v) e = hk a v ∙ e
      go (Outcome.throws, v) e = e
      go (Outcome.fault, v) e = e

  pub Keeps-then : {A B : Type 0} (m : M S A) (k : M S B) → Keeps m → Keeps k → Keeps (m >> k)
  unfolding Keeps
  Keeps-then m k hm hk = Keeps-bind m (λ _. k) hm (λ _. hk)

  pub Keeps-pure : {A : Type 0} (a : A) → Keeps (pure a)
  unfolding Keeps
  Keeps-pure a w = refl

  pub Keeps-skip : Keeps skip
  unfolding Keeps
  Keeps-skip w = refl

  pub Keeps-or_throw : {A : Type 0} (o : Option A) → Keeps (or_throw o)
  unfolding Keeps
  Keeps-or_throw none w = refl
  Keeps-or_throw (some a) w = refl

  pub Keeps-outcome : {A : Type 0} (o : Outcome A) → Keeps (outcome o)
  unfolding Keeps
  Keeps-outcome o w = refl

  pub Keeps-modify : (g : World S → World S) → ((w : World S) → f (g w) ≡ f w) → Keeps (modify g)
  unfolding Keeps
  Keeps-modify g e = e

  pub Keeps-if :
      {A : Type 0} (b : Bool) (m k : M S A) → Keeps m → Keeps k → Keeps (if b then m else k)
  Keeps-if true m k hm hk = hm
  Keeps-if false m k hm hk = hk

  pub Keeps-when : (b : Bool) (m : M S (Unit {0})) → Keeps m → Keeps (when b m)
  unfolding Keeps
  Keeps-when true m hm w = hm w
  Keeps-when false m hm w = refl

  pub Keeps-option :
      {A B : Type 0} (o : Option A) (m : M S B) (k : A → M S B)
      → Keeps m
      → ((a : A) → Keeps (k a))
      → Keeps (if_found o m k)
  Keeps-option none m k hm hk = hm
  Keeps-option (some a) m k hm hk = hk a

  pub Keeps-get_session : (uid : ℤ) → Keeps (get_session uid)
  unfolding Keeps get_session
  Keeps-get_session uid w = refl

  module _ (h : IsApart f) where
    pub Keeps-call : {A : Type 0} (g : S → A × S) → Keeps (call g)
    unfolding Keeps
    Keeps-call g w = h.from_outside w (g w.outside).1

    pub Keeps-send : (p : ℕ) (msg : Str) (msg_id : ℤ) → Keeps (send p msg msg_id)
    unfolding Keeps
    Keeps-send p msg msg_id w = rw (send-sent p msg msg_id w) (h.from_sessions w _)

    pub Keeps-set_user_id : (p : ℕ) (uid : ℤ) → Keeps (set_user_id p uid)
    unfolding Keeps set_user_id
    Keeps-set_user_id p uid w = h.from_sessions w _

module _ {S X : Type 0} (f : World S → X) where
  pub Keeps-set_user_session :
      ((w : World S) (d : Dict ℤ ℕ) → f (record w { uid_to_session = d }) ≡ f w)
      → (uid : ℤ) (p : ℕ) → Keeps f (set_user_session uid p)
  unfolding Keeps set_user_session
  Keeps-set_user_session h uid p w = h w _

pub ruleset keeps = (
  Keeps-bind, Keeps-then, Keeps-pure, Keeps-skip, Keeps-or_throw, Keeps-outcome, Keeps-if,
  Keeps-when, Keeps-option, Keeps-get_session, Keeps-call, Keeps-send, Keeps-set_user_id,
)
