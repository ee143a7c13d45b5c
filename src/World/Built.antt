-- ===== src/World/Built.antt =====
-- How the handlers are built: from calls of services, lookups of users and sends, and from nothing
-- else. What holds of each way to build code holds of all of it.
use chat_server.Base.{ℕ, ◌≢◌, Bool, if◌then◌else◌, Option}
use chat_server.Base.Int.{ℤ}
use chat_server.Base.Text.{Str}
use chat_server.World.{World, Session, M, pure, skip, or_throw, call, when, if_found, ◌>>=◌, ◌>>◌}
use chat_server.UserMgr.{get_session}
use chat_server.Session.{send}
use chat_server.World.Keeps.{
  IsApart, Keeps, Keeps-bind, Keeps-then, Keeps-pure, Keeps-skip, Keeps-or_throw, Keeps-if,
  Keeps-when, Keeps-option, Keeps-call, Keeps-send, Keeps-get_session,
}
use chat_server.World.Spares.{
  Spares, Spares-bind, Spares-then, Spares-pure, Spares-skip, Spares-or_throw, Spares-if,
  Spares-when, Spares-option, Spares-call, Spares-send, Spares-peer, Spares-peer_then,
}
use chat_server.World.Faultless.{
  Faultless, Faultless-bind, Faultless-then, Faultless-pure, Faultless-skip, Faultless-or_throw,
  Faultless-if, Faultless-when, Faultless-option, Faultless-call, Faultless-send,
  Faultless-get_session,
}
use chat_server.Session.Moves.{
  Touches, Touches-bind, Touches-then, Touches-pure, Touches-skip, Touches-or_throw, Touches-if,
  Touches-when, Touches-option, Touches-call, Touches-send, Touches-get_session,
}

-- `Ok` is what is known of a session that code sends on: one that is found for a user, or one that
-- was given.
pub data Built (S : Type 0) (Ok : ℕ → Type 0) : (A : Type 0) → M S A → Type 1 where
  binds :
      {A B : Type 0} (m : M S A) (k : A → M S B)
      → Built S Ok A m
      → ((a : A) → Built S Ok B (k a))
      → Built S Ok B (m >>= k)
  thens :
      {A B : Type 0} (m : M S A) (k : M S B)
      → Built S Ok A m
      → Built S Ok B k
      → Built S Ok B (m >> k)
  pures : {A : Type 0} (a : A) → Built S Ok A (pure a)
  skips : Built S Ok (Unit {0}) skip
  throws : {A : Type 0} (o : Option A) → Built S Ok A (or_throw o)
  tests :
      {A : Type 0} (b : Bool) (m k : M S A)
      → Built S Ok A m
      → Built S Ok A k
      → Built S Ok A (if b then m else k)
  guards :
      (b : Bool) (m : M S (Unit {0})) → Built S Ok (Unit {0}) m → Built S Ok (Unit {0}) (when b m)
  options :
      {A B : Type 0} (o : Option A) (m : M S B) (k : A → M S B)
      → Built S Ok B m
      → ((a : A) → Built S Ok B (k a))
      → Built S Ok B (if_found o m k)
  calls : {A : Type 0} (g : S → A × S) → Built S Ok A (call g)
  sends : (p : ℕ) (msg : Str) (msg_id : ℤ) → Ok p → Built S Ok (Unit {0}) (send p msg msg_id)
  peers :
      {B : Type 0} (uid : ℤ) (m : M S B) (k : ℕ → M S B)
      → Built S Ok B m
      → ((p : ℕ) → Ok p → Built S Ok B (k p))
      → Built S Ok B (get_session uid >>= λ peer. if_found peer m k)
  peers_then :
      {B C : Type 0} (uid : ℤ) (m : M S B) (k : ℕ → M S B) (n : M S C)
      → Built S Ok B m
      → ((p : ℕ) → Ok p → Built S Ok B (k p))
      → Built S Ok C n
      → Built S Ok C (get_session uid >>= λ peer. (if_found peer m k >> n))

pub ruleset built =
    (binds, thens, pures, skips, throws, tests, guards, options, calls, sends, peers, peers_then)

-- Nothing is known of the sessions.
abbrev pub Any : ℕ → Type 0
Any p = Unit {0}

-- Code apart from the services and the sessions.
module _ {S X : Type 0} (Ok : ℕ → Type 0) (ok : (p : ℕ) → Ok p) (f : World S → X)
    (h : IsApart f) where
  pub Built-Keeps : {A : Type 0} (m : M S A) → Built S Ok A m → Keeps f m
  Built-Keeps _ (binds m k a b) = Keeps-bind f m k (Built-Keeps m a) (λ x. Built-Keeps (k x) (b x))
  Built-Keeps _ (thens m k a b) = Keeps-then f m k (Built-Keeps m a) (Built-Keeps k b)
  Built-Keeps _ (pures a) = Keeps-pure f a
  Built-Keeps _ skips = Keeps-skip f
  Built-Keeps _ (throws o) = Keeps-or_throw f o
  Built-Keeps _ (tests b m k x y) = Keeps-if f b m k (Built-Keeps m x) (Built-Keeps k y)
  Built-Keeps _ (guards b m x) = Keeps-when f b m (Built-Keeps m x)
  Built-Keeps _ (options o m k x y) =
      Keeps-option f o m k (Built-Keeps m x) (λ a. Built-Keeps (k a) (y a))
  Built-Keeps _ (calls g) = Keeps-call f h g
  Built-Keeps _ (sends p msg msg_id _) = Keeps-send f h p msg msg_id
  Built-Keeps _ (peers uid m k x y) =
      Keeps-bind f (get_session uid) _ (Keeps-get_session f uid)
        (λ peer. Keeps-option f peer m k (Built-Keeps m x) (λ p. Built-Keeps (k p) (y p (ok p))))
  Built-Keeps _ (peers_then uid m k n x y z) =
      Keeps-bind f (get_session uid) _ (Keeps-get_session f uid) (λ peer.
        Keeps-then f (if_found peer m k) n
          (Keeps-option f peer m k (Built-Keeps m x) (λ p. Built-Keeps (k p) (y p (ok p))))
          (Built-Keeps n z))

module _ {S : Type 0} (Ok : ℕ → Type 0) (ok : (p : ℕ) → Ok p) where
  pub Built-Touches : {A : Type 0} (m : M S A) → Built S Ok A m → Touches S m
  Built-Touches _ (binds m k a b) =
      Touches-bind S m k (Built-Touches m a) (λ x. Built-Touches (k x) (b x))
  Built-Touches _ (thens m k a b) = Touches-then S m k (Built-Touches m a) (Built-Touches k b)
  Built-Touches _ (pures a) = Touches-pure S a
  Built-Touches _ skips = Touches-skip S
  Built-Touches _ (throws o) = Touches-or_throw S o
  Built-Touches _ (tests b m k x y) = Touches-if S b m k (Built-Touches m x) (Built-Touches k y)
  Built-Touches _ (guards b m x) = Touches-when S b m (Built-Touches m x)
  Built-Touches _ (options o m k x y) =
      Touches-option S o m k (Built-Touches m x) (λ a. Built-Touches (k a) (y a))
  Built-Touches _ (calls g) = Touches-call S g
  Built-Touches _ (sends p msg msg_id _) = Touches-send S p msg msg_id
  Built-Touches _ (peers uid m k x y) =
      Touches-bind S (get_session uid) _ (Touches-get_session S uid) (λ peer.
        Touches-option S peer m k (Built-Touches m x) (λ p. Built-Touches (k p) (y p (ok p))))
  Built-Touches _ (peers_then uid m k n x y z) =
      Touches-bind S (get_session uid) _ (Touches-get_session S uid) (λ peer.
        Touches-then S (if_found peer m k) n
          (Touches-option S peer m k (Built-Touches m x) (λ p. Built-Touches (k p) (y p (ok p))))
          (Built-Touches n z))

  pub Built-Faultless : {A : Type 0} (m : M S A) → Built S Ok A m → Faultless S m
  Built-Faultless _ (binds m k a b) =
      Faultless-bind S m k (Built-Faultless m a) (λ x. Built-Faultless (k x) (b x))
  Built-Faultless _ (thens m k a b) =
      Faultless-then S m k (Built-Faultless m a) (Built-Faultless k b)
  Built-Faultless _ (pures a) = Faultless-pure S a
  Built-Faultless _ skips = Faultless-skip S
  Built-Faultless _ (throws o) = Faultless-or_throw S o
  Built-Faultless _ (tests b m k x y) =
      Faultless-if S b m k (Built-Faultless m x) (Built-Faultless k y)
  Built-Faultless _ (guards b m x) = Faultless-when S b m (Built-Faultless m x)
  Built-Faultless _ (options o m k x y) =
      Faultless-option S o m k (Built-Faultless m x) (λ a. Built-Faultless (k a) (y a))
  Built-Faultless _ (calls g) = Faultless-call S g
  Built-Faultless _ (sends p msg msg_id _) = Faultless-send S p msg msg_id
  Built-Faultless _ (peers uid m k x y) =
      Faultless-bind S (get_session uid) _ (Faultless-get_session S uid) (λ peer.
        Faultless-option S peer m k (Built-Faultless m x) (λ p. Built-Faultless (k p) (y p (ok p))))
  Built-Faultless _ (peers_then uid m k n x y z) =
      Faultless-bind S (get_session uid) _ (Faultless-get_session S uid) (λ peer.
        Faultless-then S (if_found peer m k) n
          (Faultless-option S peer m k (Built-Faultless m x)
            (λ p. Built-Faultless (k p) (y p (ok p))))
          (Built-Faultless n z))

-- Code that sends on other sessions than `q`.
module _ {S : Type 0} (q : ℕ) (t : Session) where
  pub Built-Spares : {A : Type 0} (m : M S A) → Built S (λ p. p ≢ q) A m → Spares S q t m
  Built-Spares _ (binds m k a b) =
      Spares-bind S q t m k (Built-Spares m a) (λ x. Built-Spares (k x) (b x))
  Built-Spares _ (thens m k a b) = Spares-then S q t m k (Built-Spares m a) (Built-Spares k b)
  Built-Spares _ (pures a) = Spares-pure S q t a
  Built-Spares _ skips = Spares-skip S q t
  Built-Spares _ (throws o) = Spares-or_throw S q t o
  Built-Spares _ (tests b m k x y) = Spares-if S q t b m k (Built-Spares m x) (Built-Spares k y)
  Built-Spares _ (guards b m x) = Spares-when S q t b m (Built-Spares m x)
  Built-Spares _ (options o m k x y) =
      Spares-option S q t o m k (Built-Spares m x) (λ a. Built-Spares (k a) (y a))
  Built-Spares _ (calls g) = Spares-call S q t g
  Built-Spares _ (sends p msg msg_id ne) = Spares-send S q t p ne msg msg_id
  Built-Spares _ (peers uid m k x y) =
      Spares-peer S q t uid m k (Built-Spares m x) (λ p ne. Built-Spares (k p) (y p ne))
  Built-Spares _ (peers_then uid m k n x y z) =
      Spares-peer_then S q t uid m k n (Built-Spares m x) (λ p ne. Built-Spares (k p) (y p ne))
        (Built-Spares n z)
