-- ===== src/World/Alike.antt =====
-- Code that does the same whatever users its sessions have: rules for each way to build it.
use mathlib.Core.Path.{subst}
use chat_server.Base.{
  ℕ, ◌==◌, ◌≡◌, refl, sym, ap, ◌∙◌, Bool, true, false, if◌then◌else◌, Option, none, some,
  Bool-cases, inl, inr,
}
use chat_server.Base.Int.{ℤ, pos}
use chat_server.Base.Text.{Str, str_key}
use chat_server.Base.Dict.{find, int_key}
use chat_server.Frame.{Outcome}
use chat_server.World.{
  World, Session, M, resume, pure, skip, or_throw, call, when, if_found, update, ◌>>=◌, ◌>>◌,
}
use chat_server.World.Built.{
  Any, Built, binds, thens, pures, skips, throws, tests, guards, options, calls, sends, peers,
  peers_then,
}
use chat_server.UserMgr.{get_session}
use chat_server.Session.Sent.{send-sent}
use chat_server.Session.{send, send_text}
use chat_server.Session.SendQueue.{send_text-user}

-- A session but for its user.
abbrev pub without_user : Session → Session
without_user s = record s { user_uid = pos 0 }

-- Worlds that are the same but for the users that the sessions have.
pub record Alike {S : Type 0} (w w' : World S) : Type 0 where
  pub outside : w.outside ≡ w'.outside
  pub sessions : (q : ℕ) → without_user (w.sessions q) ≡ without_user (w'.sessions q)
  pub server_sessions : w.server_sessions ≡ w'.server_sessions
  pub uid_to_session : w.uid_to_session ≡ w'.uid_to_session
  pub msg_que : w.msg_que ≡ w'.msg_que

-- Two courses that end alike.
abbrev pub EndAlike : {S A : Type 0} → Outcome A × World S → Outcome A × World S → Type 0
EndAlike r r' = (r.0 ≡ r'.0) × Alike r.1 r'.1

module _ (S : Type 0) where
  pub Ignores : {A : Type 0} → M S A → Type 0
  Ignores m = (w w' : World S) → Alike w w' → EndAlike (m w) (m w')

  pub Ignores-at :
      {A : Type 0} (m : M S A) → Ignores m → (w w' : World S) → Alike w w' → EndAlike (m w) (m w')
  unfolding Ignores
  Ignores-at m h = h

  Ignores-bind :
      {A B : Type 0} (m : M S A) (k : A → M S B)
      → Ignores m
      → ((a : A) → Ignores (k a))
      → Ignores (m >>= k)
  unfolding Ignores
  Ignores-bind {A} {B} m k hm hk w w' al = go (m w) (m w') (hm w w' al)
    where
      go_on :
          (o : Outcome A) (v v' : World S)
          → Alike v v'
          → EndAlike (resume k (o, v)) (resume k (o, v'))
      go_on (Outcome.ok a) v v' e = hk a v v' e
      go_on Outcome.throws v v' e = (refl, e)
      go_on Outcome.fault v v' e = (refl, e)

      go : (r r' : Outcome A × World S) → EndAlike r r' → EndAlike (resume k r) (resume k r')
      go (o, v) (o', v') (e, al') =
          subst (λ x. EndAlike (resume k (o, v)) (resume k (x, v'))) e (go_on o v v' al')

  Ignores-then : {A B : Type 0} (m : M S A) (k : M S B) → Ignores m → Ignores k → Ignores (m >> k)
  Ignores-then m k hm hk = Ignores-bind m (λ _. k) hm (λ _. hk)

  Ignores-pure : {A : Type 0} (a : A) → Ignores (pure a)
  unfolding Ignores
  Ignores-pure a w w' al = (refl, al)

  Ignores-skip : Ignores skip
  unfolding Ignores
  Ignores-skip w w' al = (refl, al)

  Ignores-or_throw : {A : Type 0} (o : Option A) → Ignores (or_throw o)
  unfolding Ignores
  Ignores-or_throw none w w' al = (refl, al)
  Ignores-or_throw (some a) w w' al = (refl, al)

  Ignores-if :
      {A : Type 0} (b : Bool) (m k : M S A) → Ignores m → Ignores k → Ignores (if b then m else k)
  Ignores-if true m k hm hk = hm
  Ignores-if false m k hm hk = hk

  Ignores-when : (b : Bool) (m : M S (Unit {0})) → Ignores m → Ignores (when b m)
  unfolding Ignores
  Ignores-when true m hm w w' al = hm w w' al
  Ignores-when false m hm w w' al = (refl, al)

  Ignores-option :
      {A B : Type 0} (o : Option A) (m : M S B) (k : A → M S B)
      → Ignores m
      → ((a : A) → Ignores (k a))
      → Ignores (if_found o m k)
  Ignores-option none m k hm hk = hm
  Ignores-option (some a) m k hm hk = hk a

  Ignores-call : {A : Type 0} (g : S → A × S) → Ignores (call g)
  unfolding Ignores
  Ignores-call g w w' al = (
    ap (λ s. Outcome.ok (g s).0) al.outside,
    record {
      outside = ap (λ s. (g s).1) al.outside;
      sessions = al.sessions;
      server_sessions = al.server_sessions;
      uid_to_session = al.uid_to_session;
      msg_que = al.msg_que;
    },
  )

  Ignores-get_session : (uid : ℤ) → Ignores (get_session uid)
  unfolding Ignores get_session
  Ignores-get_session uid w w' al = (ap (λ d. Outcome.ok (find uid d)) al.uid_to_session, al)

  Ignores-send : (p : ℕ) (msg : Str) (msg_id : ℤ) → Ignores (send p msg msg_id)
  unfolding Ignores update
  Ignores-send p msg msg_id w w' al =
      rw (send-sent p msg msg_id w, send-sent p msg msg_id w')
        (
          refl,
          record {
            outside = al.outside;
            sessions = both;
            server_sessions = al.server_sessions;
            uid_to_session = al.uid_to_session;
            msg_que = al.msg_que;
          },
        )
    where
      sent :
          without_user (send_text msg msg_id (w.sessions p))
          ≡ without_user (send_text msg msg_id (w'.sessions p))
      sent =
          send_text-user msg msg_id (pos 0) (w.sessions p)
          ∙ ap (send_text msg msg_id) (al.sessions p)
          ∙ sym (send_text-user msg msg_id (pos 0) (w'.sessions p))

      both :
          (q : ℕ)
          → without_user (if p == q then send_text msg msg_id (w.sessions p) else w.sessions q)
            ≡ without_user (if p == q then send_text msg msg_id (w'.sessions p) else w'.sessions q)
      both q = elim (Bool-cases (p == q)) [ inl e ↦ rw e sent | inr e ↦ rw e (al.sessions q) ]

  pub Built-Ignores : {A : Type 0} (m : M S A) → Built S Any A m → Ignores m
  Built-Ignores _ (binds m k a b) =
      Ignores-bind m k (Built-Ignores m a) (λ x. Built-Ignores (k x) (b x))
  Built-Ignores _ (thens m k a b) = Ignores-then m k (Built-Ignores m a) (Built-Ignores k b)
  Built-Ignores _ (pures a) = Ignores-pure a
  Built-Ignores _ skips = Ignores-skip
  Built-Ignores _ (throws o) = Ignores-or_throw o
  Built-Ignores _ (tests b m k x y) = Ignores-if b m k (Built-Ignores m x) (Built-Ignores k y)
  Built-Ignores _ (guards b m x) = Ignores-when b m (Built-Ignores m x)
  Built-Ignores _ (options o m k x y) =
      Ignores-option o m k (Built-Ignores m x) (λ a. Built-Ignores (k a) (y a))
  Built-Ignores _ (calls g) = Ignores-call g
  Built-Ignores _ (sends p msg msg_id _) = Ignores-send p msg msg_id
  Built-Ignores _ (peers uid m k x y) =
      Ignores-bind (get_session uid) _ (Ignores-get_session uid)
        (λ peer. Ignores-option peer m k (Built-Ignores m x) (λ p. Built-Ignores (k p) (y p tt)))
  Built-Ignores _ (peers_then uid m k n x y z) =
      Ignores-bind (get_session uid) _ (Ignores-get_session uid) (λ peer.
        Ignores-then (if_found peer m k) n
          (Ignores-option peer m k (Built-Ignores m x) (λ p. Built-Ignores (k p) (y p tt)))
          (Built-Ignores n z))
