-- ===== src/World/Store.antt =====
-- Laws of writes through a session pointer, and of sequences of effects.
use mathlib.Core.Path.{fun_ext}
use chat_server.Base.{ℕ, ◌==◌, ==_iff, ◌≡◌, ◌≢◌, ap, arith, Bool-cases, inl, inr}
use chat_server.Frame.{Outcome}
use chat_server.World.{
  World, Session, Reading, M, catch, resume, recover, update, set_session, ◌>>=◌,
}

pub update_self : (h : ℕ → Session) (p : ℕ) (s : Session) → update h p s p ≡ s
unfolding update
update_self h p s = ground arith

pub update_other : (h : ℕ → Session) (p q : ℕ) (s : Session) → p ≢ q → update h p s q ≡ h q
unfolding update
update_other h p q s ne = ground arith

pub update-update :
    (h : ℕ → Session) (p : ℕ) (s t : Session) → update (update h p s) p t ≡ update h p t
unfolding update
update-update h p s t = fun_ext (λ q. elim (Bool-cases (p == q)) [ inl e ↦ rw e | inr e ↦ rw e ])

pub update_same : (h : ℕ → Session) (p : ℕ) → update h p (h p) ≡ h
unfolding update
update_same h p =
    fun_ext
      (λ q. elim (Bool-cases (p == q)) [ inl e ↦ rw e (ap h ((==_iff p q).0 e)) | inr e ↦ rw e ])

pub ruleset store = (update_self, update-update)

-- The world with another outstanding read of one session.
abbrev pub with_reading : {S : Type 0} → ℕ → Reading → World S → World S
with_reading p r w = set_session p (record (w.sessions p) { reading = r }) w

pub with_reading-with_reading :
    {S : Type 0} (p : ℕ) (r r' : Reading) (w : World S)
    → with_reading p r' (with_reading p r w) ≡ with_reading p r' w
with_reading-with_reading p r r' w = simp store

pub with_reading-same :
    {S : Type 0} (p : ℕ) (r : Reading) (w : World S)
    → (w.sessions p).reading ≡ r
    → with_reading p r w ≡ w
with_reading-same p r w e =
    rw (← e) (ap (λ h. record w { sessions = h }) (update_same w.sessions p))

-- A piece of code that returns is followed by the rest, from where it left the world.
pub bind-ok :
    {S A B : Type 0} (m : M S A) (k : A → M S B) {a : A} (w : World S) {w' : World S}
    → m w ≡ (Outcome.ok a, w')
    → (m >>= k) w ≡ k a w'
bind-ok m k w e = ap (resume k) e

pub catch-ok :
    {S A : Type 0} (m k : M S A) {a : A} (w : World S) {w' : World S}
    → m w ≡ (Outcome.ok a, w')
    → catch m k w ≡ (Outcome.ok a, w')
catch-ok m k w e = ap (recover k) e
