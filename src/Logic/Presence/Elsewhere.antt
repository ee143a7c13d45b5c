-- ===== src/Logic/Presence/Elsewhere.antt =====
-- src/application/LogicSystem.cpp with src/net/CSession.cpp: a user who logs in on a second
-- connection, and the end of the first.
use chat_server.Base.{
  ℕ, ◌+◌, ◌<◌, ◌^◌, ◌-◌, ◌≡◌, ◌≢◌, refl, sym, ◌∙◌, true, false, none, some, arith,
}
use chat_server.Base.Int.{ℤ, pos, is_pos}
use chat_server.Base.Dict.{find, int_key, find-erase, beq_refl}
use chat_server.Services.{Services, HashLaws}
use chat_server.Frame.{Outcome}
use chat_server.World.{World, ◌>>◌}
use chat_server.World.Store.{bind-ok, update_other}
use chat_server.Session.{close}
use chat_server.Logic.Login.{bind_user}
use chat_server.Logic.Presence.{
  counter, bound, closed, bind_user-bound, counter-bound, counter-closed, bound_user, bound_open,
  close-closed,
}

module _ {S : Type 0} (E : Services S) (laws : HashLaws E) where
  -- A login on one session leaves the others alone.
  bound_other :
      (p q : ℕ) (uid : ℤ) (n : ℕ) (w : World S)
      → p ≢ q
      → (bound E p uid n w).sessions q ≡ w.sessions q
  unfolding bound
  bound_other p q uid n w ne = update_other w.sessions p q _ ne

  closed_other :
      (p q : ℕ) (uid : ℤ) (n : ℕ) (w : World S)
      → p ≢ q
      → (closed E p uid n w).sessions q ≡ w.sessions q
  unfolding closed
  closed_other p q uid n w ne = update_other w.sessions p q _ ne

  closed_user :
      (p : ℕ) (uid : ℤ) (n : ℕ) (w : World S) → find uid (closed E p uid n w).uid_to_session ≡ none
  unfolding closed
  closed_user p uid n w = rw (find-erase, beq_refl uid) refl

  -- Let Redis keep what is written to a hash (HashLaws), let the server's counter read as `n`, at
  -- least two below the largest `int`, and let two sessions be open. If a user with a positive uid is
  -- bound to the one and then to the other by two logins, and the first session is then closed, all
  -- of it returns and the counter is at `n + 1`; the second session is open with the user on it, and
  -- UserMgr has no session for him.
  pub login_elsewhere_then_close :
      (p q : ℕ) (uid : ℤ) (n : ℕ) (w : World S)
      → p ≢ q
      → counter E w ≡ some (pos n)
      → n < 2 ^ 31 - 2
      → (w.sessions p).b_close ≡ false
      → (w.sessions q).b_close ≡ false
      → is_pos uid ≡ true
      → let r = (bind_user E p uid >> bind_user E q uid >> close E p) w in
        (r.0 ≡ Outcome.ok tt)
        × (counter E r.1 ≡ some (pos (n + 1)))
        × ((r.1.sessions q).b_close ≡ false)
        × ((r.1.sessions q).user_uid ≡ uid)
        × (find uid r.1.uid_to_session ≡ none)
  login_elsewhere_then_close p q uid n w ne c h op oq i = rw run (
    refl,
    counter-closed E laws p uid (n + 1) twice (omega arith),
    rw (closed_other p q uid (n + 1) twice ne)
        (bound_open E laws q uid (n + 1) once (rw (bound_other p q uid n w ne) oq)),
    rw (closed_other p q uid (n + 1) twice ne) (bound_user E laws q uid (n + 1) once),
    closed_user p uid (n + 1) twice,
  )
    where
      once : World S
      once = bound E p uid n w

      twice : World S
      twice = bound E q uid (n + 1) once

      same : twice.sessions p ≡ once.sessions p
      same = bound_other q p uid (n + 1) once (λ e. ne (sym e))

      run :
          (bind_user E p uid >> bind_user E q uid >> close E p) w
          ≡ (Outcome.ok tt, closed E p uid (n + 1) twice)
      run =
          bind-ok (bind_user E p uid >> bind_user E q uid) (λ _. close E p) w
            (bind-ok (bind_user E p uid) (λ _. bind_user E q uid) w
                (bind_user-bound E laws p uid n w c (omega arith))
              ∙ bind_user-bound E laws q uid (n + 1) once
                  (counter-bound E laws p uid n w (omega arith)) (omega arith))
          ∙ close-closed E laws p uid (n + 1) twice
              (counter-bound E laws q uid (n + 1) once (omega arith))
              (rw same (bound_open E laws p uid n w op)) (rw same (bound_user E laws p uid n w)) i
