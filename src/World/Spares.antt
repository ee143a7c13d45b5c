-- ===== src/World/Spares.antt =====
-- Code that leaves a session alone which is not its own and which no user is logged in on: rules
-- for each way to build such code.
use chat_server.Base.{
  ℕ, ◌≡◌, ◌≢◌, refl, ap, sym, ◌∙◌, Bool, true, false, if◌then◌else◌, Option, none, some, Bool-cases,
  inl, inr,
}
use mathlib.Core.Option.{some-injective}
use chat_server.Base.Int.{ℤ, int_eq}
use chat_server.Base.Text.{Str}
use chat_server.Base.Dict.{find, int_key, find-assign}
use chat_server.Frame.{Outcome}
use chat_server.World.{
  World, Session, M, resume, pure, skip, or_throw, outcome, call, modify, when, if_found, ◌>>=◌,
  ◌>>◌,
}
use chat_server.World.Store.{update_other}
use chat_server.UserMgr.{get_session, set_user_session}
use chat_server.Session.Sent.{send-sent}
use chat_server.Session.{send, set_user_id}

module _ (S : Type 0) (q : ℕ) (s : Session) where
  -- The session at `q` is in the state `s`, and no user is logged in on it.
  abbrev pub Bystander : World S → Type 0
  Bystander w = (w.sessions q ≡ s) × ((uid : ℤ) → find uid w.uid_to_session ≢ some q)

  pub Spares : {A : Type 0} → M S A → Type 0
  Spares m = (w : World S) → Bystander w → Bystander (m w).1

  pub Spares-at :
      {A : Type 0} (m : M S A) → Spares m → (w : World S) → Bystander w → Bystander (m w).1
  unfolding Spares
  Spares-at m k = k

  pub Spares-bind :
      {A B : Type 0} (m : M S A) (k : A → M S B)
      → Spares m
      → ((a : A) → Spares (k a))
      → Spares (m >>= k)
  unfolding Spares
  Spares-bind {A} {B} m k hm hk w b = go (m w) (hm w b)
    where
      go : (r : Outcome A × World S) → Bystander r.1 → Bystander (resume k r).1
      go (Outcome.ok a, v) e = hk a v e
      go (Outcome.throws, v) e = e
      go (Outcome.fault, v) e = e

  pub Spares-then : {A B : Type 0} (m : M S A) (k : M S B) → Spares m → Spares k → Spares (m >> k)
  Spares-then m k hm hk = Spares-bind m (λ _. k) hm (λ _. hk)

  pub Spares-pure : {A : Type 0} (a : A) → Spares (pure a)
  unfolding Spares
  Spares-pure a w b = b

  pub Spares-skip : Spares skip
  unfolding Spares
  Spares-skip w b = b

  pub Spares-or_throw : {A : Type 0} (o : Option A) → Spares (or_throw o)
  unfolding Spares
  Spares-or_throw none w b = b
  Spares-or_throw (some a) w b = b

  pub Spares-outcome : {A : Type 0} (o : Outcome A) → Spares (outcome o)
  unfolding Spares
  Spares-outcome o w b = b

  pub Spares-modify :
      (g : World S → World S) → ((w : World S) → Bystander w → Bystander (g w)) → Spares (modify g)
  unfolding Spares
  Spares-modify g h = h

  pub Spares-if :
      {A : Type 0} (c : Bool) (m k : M S A) → Spares m → Spares k → Spares (if c then m else k)
  Spares-if true m k hm hk = hm
  Spares-if false m k hm hk = hk

  pub Spares-when : (c : Bool) (m : M S (Unit {0})) → Spares m → Spares (when c m)
  unfolding Spares
  Spares-when true m hm w b = hm w b
  Spares-when false m hm w b = b

  pub Spares-option :
      {A B : Type 0} (o : Option A) (m : M S B) (k : A → M S B)
      → Spares m
      → ((a : A) → Spares (k a))
      → Spares (if_found o m k)
  Spares-option none m k hm hk = hm
  Spares-option (some a) m k hm hk = hk a

  pub Spares-call : {A : Type 0} (g : S → A × S) → Spares (call g)
  unfolding Spares
  Spares-call g w b = b

  pub Spares-send : (p : ℕ) → p ≢ q → (msg : Str) (msg_id : ℤ) → Spares (send p msg msg_id)
  unfolding Spares
  Spares-send p ne msg msg_id w b =
      rw (send-sent p msg msg_id w) (update_other w.sessions p q _ ne ∙ b.0, b.1)

  pub Spares-set_user_id : (p : ℕ) → p ≢ q → (uid : ℤ) → Spares (set_user_id p uid)
  unfolding Spares set_user_id
  Spares-set_user_id p ne uid w b = (update_other w.sessions p q _ ne ∙ b.0, b.1)

  pub Spares-set_user_session : (p : ℕ) → p ≢ q → (uid : ℤ) → Spares (set_user_session uid p)
  unfolding Spares set_user_session
  Spares-set_user_session p ne uid w b =
      (b.0, λ v e. taken v (sym (find-assign uid v p w.uid_to_session) ∙ e))
    where
      taken : (v : ℤ) → (if int_eq uid v then some p else find v w.uid_to_session) ≢ some q
      taken v e = elim (Bool-cases (int_eq uid v)) [
        | inl same ↦ ne (some-injective p q (rw same at e))
        | inr other ↦ b.1 v (rw other at e)
      ]

  -- A session that is found for a user is another one.
  pub Spares-peer :
      {B : Type 0} (uid : ℤ) (m : M S B) (k : ℕ → M S B)
      → Spares m
      → ((p : ℕ) → p ≢ q → Spares (k p))
      → Spares (get_session uid >>= λ peer. if_found peer m k)
  unfolding Spares get_session
  Spares-peer {B} uid m k hm hk w b = go (find uid w.uid_to_session) refl
    where
      go : (o : Option ℕ) → find uid w.uid_to_session ≡ o → Bystander (if_found o m k w).1
      go none e = hm w b
      go (some p) e = hk p (λ same. b.1 uid (e ∙ ap some same)) w b

  -- The same where code follows.
  pub Spares-peer_then :
      {B C : Type 0} (uid : ℤ) (m : M S B) (k : ℕ → M S B) (n : M S C)
      → Spares m
      → ((p : ℕ) → p ≢ q → Spares (k p))
      → Spares n
      → Spares (get_session uid >>= λ peer. (if_found peer m k >> n))
  unfolding get_session
  Spares-peer_then uid m k n hm hk hn =
      Spares-then (get_session uid >>= λ peer. if_found peer m k) n (Spares-peer uid m k hm hk) hn

pub ruleset spares = (
  Spares-bind, Spares-then, Spares-pure, Spares-skip, Spares-or_throw, Spares-outcome, Spares-if,
  Spares-when, Spares-option, Spares-call, Spares-send, Spares-set_user_id, Spares-set_user_session,
  Spares-peer, Spares-peer_then,
)
