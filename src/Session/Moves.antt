-- ===== src/Session/Moves.antt =====
-- src/net/CSession.cpp: what a piece of code does to a session.
use chat_server.Base.{
  ℕ, ◌+◌, ◌≤◌, ◌==◌, ==_iff, ◌≡◌, refl, Bool, true, false, if◌then◌else◌, Option, none, some,
  length, Bool-cases, inl, inr, arith,
}
use chat_server.Base.Int.{ℤ, pos}
use chat_server.Base.Text.{Str}
use chat_server.Domain.{max_length, head_total_len}
use chat_server.Frame.{Outcome, MsgNode, zeros}
use chat_server.World.{
  World, Session, Purpose, Reading, M, resume, pure, skip, or_throw, outcome, call, gets, modify,
  when, if_found, catch, recover, set_session, update, ◌>>=◌, ◌>>◌,
}
use chat_server.World.Store.{update_self, update_other}
use chat_server.UserMgr.{get_session, set_user_session, remove_user_session}
use chat_server.Session.Sent.{send-sent, wrote-cases}
use chat_server.Session.{send, send_text, handle_write, wrote, set_user_id}

-- A node for `n` bytes as its constructor leaves it, with a terminator.
pub record IsRoom (n : ℕ) (node : MsgNode) : Type 0 where
  pub empty : node.cur_len ≡ pos 0
  pub wanted : node.total_len ≡ pos n
  pub blank : node.content ≡ zeros (n + 1)

abbrev pub FitsPurpose : Purpose → ℕ → Type 0
FitsPurpose Purpose.head want = want ≡ head_total_len
FitsPurpose (Purpose.body recv) want = IsRoom want recv.node

-- A read into `_data`, of MAX_LENGTH bytes, that does not run over it.
abbrev pub FitsReading : Reading → Type 0
FitsReading Reading.idle = Unit {0}
FitsReading (Reading.reading purpose got want) =
    (length got ≤ want) × (want ≤ max_length) × FitsPurpose purpose want

-- The server sends a text, sets the user, reads on, closes the socket, or has an answer to a write.
pub data Move (s : Session) : Session → Type 0 where
  sends : (msg : Str) (msg_id : ℤ) → Move s (send_text msg msg_id s)
  binds : (uid : ℤ) → Move s (record s { user_uid = uid })
  reads : (r : Reading) → FitsReading r → Move s (record s { reading = r })
  shuts : Move s (record s { socket_open = false; b_close = true })
  completes : (failed : Bool) → Move s (handle_write failed s)

pub data Moves : Session → Session → Type 0 where
  stays : {s : Session} → Moves s s
  goes : {s t u : Session} → Move s t → Moves t u → Moves s u

pub Moves-trans : {s t u : Session} → Moves s t → Moves t u → Moves s u
Moves-trans stays n = n
Moves-trans (goes m k) n = goes m (Moves-trans k n)

-- One session moves, and the others stay.
pub Moves-update :
    (h : ℕ → Session) (p : ℕ) (s : Session) → Moves (h p) s → (q : ℕ) → Moves (h q) (update h p s q)
Moves-update h p s m q = elim (Bool-cases (p == q)) [
  | inl k ↦ let same = (==_iff p q).0 k in rw (← same, update_self) m
  | inr k ↦ rw (update_other h p q s (λ j. grind (arith, (==_iff p q).1 j))) stays
]

module _ (S : Type 0) where
  -- Code after which each session has made some moves.
  pub Touches : {A : Type 0} → M S A → Type 0
  Touches m = (w : World S) (q : ℕ) → Moves (w.sessions q) ((m w).1.sessions q)

  pub Touches-at :
      {A : Type 0} (m : M S A)
      → Touches m
      → (w : World S) (q : ℕ) → Moves (w.sessions q) ((m w).1.sessions q)
  unfolding Touches
  Touches-at m k = k

  pub Touches-bind :
      {A B : Type 0} (m : M S A) (k : A → M S B)
      → Touches m
      → ((a : A) → Touches (k a))
      → Touches (m >>= k)
  unfolding Touches
  Touches-bind {A} {B} m k hm hk w q = go (m w) (hm w q)
    where
      go :
          (r : Outcome A × World S)
          → Moves (w.sessions q) (r.1.sessions q)
          → Moves (w.sessions q) ((resume k r).1.sessions q)
      go (Outcome.ok a, v) e = Moves-trans e (hk a v q)
      go (Outcome.throws, v) e = e
      go (Outcome.fault, v) e = e

  pub Touches-then :
      {A B : Type 0} (m : M S A) (k : M S B) → Touches m → Touches k → Touches (m >> k)
  Touches-then m k hm hk = Touches-bind m (λ _. k) hm (λ _. hk)

  pub Touches-catch : {A : Type 0} (m k : M S A) → Touches m → Touches k → Touches (catch m k)
  unfolding Touches
  Touches-catch {A} m k hm hk w q = go (m w) (hm w q)
    where
      go :
          (r : Outcome A × World S)
          → Moves (w.sessions q) (r.1.sessions q)
          → Moves (w.sessions q) ((recover k r).1.sessions q)
      go (Outcome.ok a, v) e = e
      go (Outcome.throws, v) e = Moves-trans e (hk v q)
      go (Outcome.fault, v) e = e

  pub Touches-pure : {A : Type 0} (a : A) → Touches (pure a)
  unfolding Touches
  Touches-pure a w q = stays

  pub Touches-skip : Touches skip
  unfolding Touches
  Touches-skip w q = stays

  pub Touches-or_throw : {A : Type 0} (o : Option A) → Touches (or_throw o)
  unfolding Touches
  Touches-or_throw none w q = stays
  Touches-or_throw (some a) w q = stays

  pub Touches-outcome : {A : Type 0} (o : Outcome A) → Touches (outcome o)
  unfolding Touches
  Touches-outcome o w q = stays

  pub Touches-if :
      {A : Type 0} (b : Bool) (m k : M S A) → Touches m → Touches k → Touches (if b then m else k)
  Touches-if true m k hm hk = hm
  Touches-if false m k hm hk = hk

  pub Touches-when : (b : Bool) (m : M S (Unit {0})) → Touches m → Touches (when b m)
  unfolding Touches
  Touches-when true m hm w q = hm w q
  Touches-when false m hm w q = stays

  pub Touches-option :
      {A B : Type 0} (o : Option A) (m : M S B) (k : A → M S B)
      → Touches m
      → ((a : A) → Touches (k a))
      → Touches (if_found o m k)
  Touches-option none m k hm hk = hm
  Touches-option (some a) m k hm hk = hk a

  pub Touches-call : {A : Type 0} (g : S → A × S) → Touches (call g)
  unfolding Touches
  Touches-call g w q = stays

  pub Touches-gets : {A : Type 0} (g : World S → A) → Touches (gets g)
  unfolding Touches
  Touches-gets g w q = stays

  -- Code that leaves the sessions alone.
  pub Touches-apart :
      (g : World S → World S) → ((w : World S) → (g w).sessions ≡ w.sessions) → Touches (modify g)
  unfolding Touches
  Touches-apart g e w q = rw (e w) stays

  pub Touches-Move :
      (p : ℕ) (f : Session → Session)
      → ((s : Session) → Move s (f s))
      → Touches (modify (λ w. set_session p (f (w.sessions p)) w))
  unfolding Touches
  Touches-Move p f m w q =
      Moves-update w.sessions p (f (w.sessions p)) (goes (m (w.sessions p)) stays) q

  pub Touches-get_session : (uid : ℤ) → Touches (get_session uid)
  unfolding Touches get_session
  Touches-get_session uid w q = stays

  pub Touches-set_user_session : (uid : ℤ) (p : ℕ) → Touches (set_user_session uid p)
  unfolding set_user_session
  Touches-set_user_session uid p = Touches-apart _ (λ w. refl)

  pub Touches-remove_user_session : (uid : ℤ) → Touches (remove_user_session uid)
  unfolding remove_user_session
  Touches-remove_user_session uid = Touches-apart _ (λ w. refl)

  pub Touches-send : (p : ℕ) (msg : Str) (msg_id : ℤ) → Touches (send p msg msg_id)
  unfolding Touches
  Touches-send p msg msg_id w q =
      rw (send-sent p msg msg_id w)
        (Touches-Move p (send_text msg msg_id) (λ s. sends msg msg_id) w q)

  pub Touches-set_user_id : (p : ℕ) (uid : ℤ) → Touches (set_user_id p uid)
  unfolding set_user_id
  Touches-set_user_id p uid = Touches-Move p (λ s. record s { user_uid = uid }) (λ s. binds uid)

  pub Touches-wrote : (p : ℕ) (failed : Bool) → Touches (wrote p failed)
  unfolding Touches
  Touches-wrote p failed w q = elim (wrote-cases p failed w) [
    | inl e ↦ rw e (Touches-Move p (handle_write failed) (λ s. completes failed) w q)
    | inr (e, _) ↦ rw e stays
  ]

pub ruleset touches = (
  Touches-bind, Touches-then, Touches-pure, Touches-skip, Touches-or_throw, Touches-outcome,
  Touches-if, Touches-when, Touches-option, Touches-call, Touches-get_session,
  Touches-set_user_session, Touches-remove_user_session, Touches-send, Touches-set_user_id,
)
