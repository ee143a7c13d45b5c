-- ===== src/World/Faultless.antt =====
-- Code that does not write outside its memory: rules for each way to build it.
use chat_server.Base.{[], inl, inr}
use chat_server.Base.{ℕ, ◌≢◌, refl, Bool, true, false, if◌then◌else◌, Option, none, some}
use chat_server.Base.Int.{ℤ}
use chat_server.Base.Text.{Str}
use chat_server.Frame.{Outcome}
use chat_server.World.{
  World, M, resume, recover, pure, skip, or_throw, call, gets, modify, when, if_found, catch, ◌>>=◌,
  ◌>>◌,
}
use chat_server.UserMgr.{get_session, remove_user_session}
use chat_server.Session.Sent.{send-sent, wrote-cases}
use chat_server.Session.{send, set_user_id, wrote}

module _ (S : Type 0) where
  pub Faultless : {A : Type 0} → M S A → Type 0
  Faultless m = (w : World S) → (m w).0 ≢ Outcome.fault

  pub Faultless-at :
      {A : Type 0} (m : M S A) → Faultless m → (w : World S) → (m w).0 ≢ Outcome.fault
  unfolding Faultless
  Faultless-at m k = k

  pub Faultless-bind :
      {A B : Type 0} (m : M S A) (k : A → M S B)
      → Faultless m
      → ((a : A) → Faultless (k a))
      → Faultless (m >>= k)
  unfolding Faultless
  Faultless-bind {A} {B} m k hm hk w = go (m w) (hm w)
    where
      go : (r : Outcome A × World S) → r.0 ≢ Outcome.fault → (resume k r).0 ≢ Outcome.fault
      go (Outcome.ok a, v) e = hk a v
      go (Outcome.throws, v) e = λ f. cc
      go (Outcome.fault, v) e = λ f. e refl

  pub Faultless-then :
      {A B : Type 0} (m : M S A) (k : M S B) → Faultless m → Faultless k → Faultless (m >> k)
  Faultless-then m k hm hk = Faultless-bind m (λ _. k) hm (λ _. hk)

  pub Faultless-catch :
      {A : Type 0} (m k : M S A) → Faultless m → Faultless k → Faultless (catch m k)
  unfolding Faultless
  Faultless-catch {A} m k hm hk w = go (m w) (hm w)
    where
      go : (r : Outcome A × World S) → r.0 ≢ Outcome.fault → (recover k r).0 ≢ Outcome.fault
      go (Outcome.ok a, v) e = e
      go (Outcome.throws, v) e = hk v
      go (Outcome.fault, v) e = e

  pub Faultless-pure : {A : Type 0} (a : A) → Faultless (pure a)
  unfolding Faultless
  Faultless-pure a w = λ f. cc

  pub Faultless-skip : Faultless skip
  unfolding Faultless
  Faultless-skip w = λ f. cc

  pub Faultless-or_throw : {A : Type 0} (o : Option A) → Faultless (or_throw o)
  unfolding Faultless
  Faultless-or_throw none w = λ f. cc
  Faultless-or_throw (some a) w = λ f. cc

  pub Faultless-if :
      {A : Type 0} (b : Bool) (m k : M S A)
      → Faultless m
      → Faultless k
      → Faultless (if b then m else k)
  Faultless-if true m k hm hk = hm
  Faultless-if false m k hm hk = hk

  pub Faultless-when : (b : Bool) (m : M S (Unit {0})) → Faultless m → Faultless (when b m)
  unfolding Faultless
  Faultless-when true m hm w = hm w
  Faultless-when false m hm w = λ f. cc

  pub Faultless-option :
      {A B : Type 0} (o : Option A) (m : M S B) (k : A → M S B)
      → Faultless m
      → ((a : A) → Faultless (k a))
      → Faultless (if_found o m k)
  Faultless-option none m k hm hk = hm
  Faultless-option (some a) m k hm hk = hk a

  pub Faultless-call : {A : Type 0} (g : S → A × S) → Faultless (call g)
  unfolding Faultless
  Faultless-call g w = λ f. cc

  pub Faultless-gets : {A : Type 0} (g : World S → A) → Faultless (gets g)
  unfolding Faultless
  Faultless-gets g w = λ f. cc

  pub Faultless-modify : (g : World S → World S) → Faultless (modify g)
  unfolding Faultless
  Faultless-modify g w = λ f. cc

  pub Faultless-get_session : (uid : ℤ) → Faultless (get_session uid)
  unfolding get_session
  Faultless-get_session uid = Faultless-gets _

  pub Faultless-remove_user_session : (uid : ℤ) → Faultless (remove_user_session uid)
  unfolding remove_user_session
  Faultless-remove_user_session uid = Faultless-modify _

  pub Faultless-send : (p : ℕ) (msg : Str) (msg_id : ℤ) → Faultless (send p msg msg_id)
  unfolding Faultless
  Faultless-send p msg msg_id w = rw (send-sent p msg msg_id w) (λ f. cc)

  pub Faultless-set_user_id : (p : ℕ) (uid : ℤ) → Faultless (set_user_id p uid)
  unfolding set_user_id
  Faultless-set_user_id p uid = Faultless-modify _

  -- A write that completes while its node is in the queue.
  pub wrote-fault :
      (p : ℕ) (failed : Bool) (w : World S)
      → (w.sessions p).send_que ≢ []
      → (wrote p failed w).0 ≢ Outcome.fault
  wrote-fault p failed w h = elim (wrote-cases p failed w) [
    | inl e ↦ rw e (λ f. cc)
    | inr (e, none_left) ↦ absurd (h none_left)
  ]

pub ruleset faultless = (
  Faultless-bind, Faultless-then, Faultless-pure, Faultless-skip, Faultless-or_throw, Faultless-if,
  Faultless-when, Faultless-option, Faultless-call, Faultless-get_session,
  Faultless-remove_user_session, Faultless-send, Faultless-set_user_id,
)
