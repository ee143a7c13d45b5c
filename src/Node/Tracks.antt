-- ===== src/Node/Tracks.antt =====
-- src/net/CSession.cpp: the open sessions of a node, and the login counter beside them.
use chat_server.Base.{
  ℕ, suc, ◌+◌, ◌-◌, ◌≤◌, ◌^◌, ◌==◌, ==_iff, ◌≡◌, ◌≢◌, refl, sym, ap, ◌∙◌, Bool, true, false, ◌||◌,
  List, [], ◌∷◌, some, length, Bool-cases, inl, inr, arith,
}
use chat_server.Base.Int.{pos, is_pos}
use chat_server.Base.Text.{Str}
use chat_server.Domain.{head_total_len}
use chat_server.Services.{Services}
use chat_server.Frame.{Outcome}
use chat_server.World.{World, Session, Reading, Purpose, new_session, update}
use chat_server.World.Store.{store, update_self, update_other}
use chat_server.Session.{handle_accept}
use chat_server.Logic.Presence.{counter}
use chat_server.Node.{Event, event}
use chat_server.Node.Online.{elem, Online, after, NoDup}

pub true-ne-false : true ≢ false
true-ne-false h = cc

pub or-true : (b : Bool) → (b || true) ≡ true
or-true true = refl
or-true false = refl

pub one_more : (n : ℕ) → n + 1 ≡ suc n
one_more n = omega arith

pub elem_self : (p : ℕ) (xs : List ℕ) → elem p (p ∷ xs) ≡ true
elem_self p xs = ground arith

-- An open session, with a user or without.
abbrev pub Fits : Session → Bool → Type 0
Fits s logged_in = (s.b_close ≡ false) × (is_pos s.user_uid ≡ logged_in)

abbrev pub AllFit : Online → (ℕ → Session) → Type 0
AllFit o h = (q : ℕ) → elem q o.open_ones ≡ true → Fits (h q) (elem q o.online)

-- A session is written, and the others are in the lists as before.
pub AllFit-update :
    (h : ℕ → Session) (p : ℕ) (s : Session) (o o' : Online)
    → AllFit o h
    → (elem p o'.open_ones ≡ true → Fits s (elem p o'.online))
    → ((q : ℕ)
        → (p == q) ≡ false
        → (elem q o'.open_ones ≡ elem q o.open_ones) × (elem q o'.online ≡ elem q o.online))
    → AllFit o' (update h p s)
AllFit-update h p s o o' old here others q e = elim (Bool-cases (p == q)) [
  | inl k ↦ let same = (==_iff p q).0 k in rw (← same, update_self) (here (rw same e))
  | inr k ↦
      let (op, on) = others q k in
      rw (update_other h p q s (λ j. grind (arith, (==_iff p q).1 j)), on) (old q (sym op ∙ e))
]

module _ {S : Type 0} (E : Services S) where
  -- The counter is the number of logged-in connections, which are open and have a user; the other
  -- open ones have none.
  pub record Tracks (o : Online) (w : World S) : Type 0 where
    pub count : counter E w ≡ some (pos (length o.online))
    pub bounded : length o.online ≤ 2 ^ 31 - 1
    pub no_dup : NoDup o.online
    pub opened : (q : ℕ) → elem q o.online ≡ true → elem q o.open_ones ≡ true
    pub fit : AllFit o w.sessions

  -- An event returns, and the connections after it are tracked.
  abbrev pub Keeps : Event → Online → World S → Type 0
  Keeps e o w = ((event E e w).0 ≡ Outcome.ok tt) × Tracks (after e o) (event E e w).1

  pub accepted-sessions :
      (p : ℕ) (id : Str) (w : World S)
      → (handle_accept p id false w).1.sessions
        ≡ update w.sessions p
            (record (new_session id) { reading = Reading.reading Purpose.head [] head_total_len })
  unfolding handle_accept
  accepted-sessions p id w = simp store

  pub event_ok :
      (e : Event) (w : World S)
      → (event E e w).0 ≡ Outcome.ok tt
      → event E e w ≡ (Outcome.ok tt, (event E e w).1)
  event_ok e w h = ap (λ r. (r, (event E e w).1)) h
