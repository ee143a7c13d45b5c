-- ===== src/Logic/Presence/Twice.antt =====
-- src/application/LogicSystem.cpp with src/net/CSession.cpp: two logins on one connection, and its
-- end.
use chat_server.Base.{ℕ, ◌+◌, ◌-◌, ◌<◌, ◌^◌, ◌≡◌, ◌≢◌, refl, ◌∙◌, true, false, some, arith}
use chat_server.Base.Int.{ℤ, pos, is_pos, int_eq, int_eq_iff}
use chat_server.Base.Dict.{find, assign, erase, int_key, find-assign, find-erase, beq_refl}
use chat_server.Services.{Services, HashLaws}
use chat_server.Frame.{Outcome}
use chat_server.World.{World, ◌>>◌}
use chat_server.World.Store.{store, bind-ok}
use chat_server.Session.{close}
use chat_server.Logic.Login.{bind_user}
use chat_server.Logic.Presence.{
  counter, bound, closed, bind_user-bound, counter-bound, counter-closed, bound_user, bound_open,
  close-closed,
}

module _ {S : Type 0} (E : Services S) (laws : HashLaws E) where
  login_twice-bound :
      (p : ℕ) (uid uid' : ℤ) (n : ℕ) (w : World S)
      → counter E w ≡ some (pos n)
      → n < 2 ^ 31 - 2
      → (bind_user E p uid >> bind_user E p uid') w
        ≡ (Outcome.ok tt, bound E p uid' (n + 1) (bound E p uid n w))
  login_twice-bound p uid uid' n w c h =
      bind-ok (bind_user E p uid) (λ _. bind_user E p uid') w
        (bind_user-bound E laws p uid n w c (omega arith))
      ∙ bind_user-bound E laws p uid' (n + 1) (bound E p uid n w)
          (counter-bound E laws p uid n w (omega arith)) (omega arith)

  login_twice_close-closed :
      (p : ℕ) (uid uid' : ℤ) (n : ℕ) (w : World S)
      → counter E w ≡ some (pos n)
      → n < 2 ^ 31 - 2
      → (w.sessions p).b_close ≡ false
      → is_pos uid' ≡ true
      → (bind_user E p uid >> bind_user E p uid' >> close E p) w
        ≡ (Outcome.ok tt, closed E p uid' (n + 1) (bound E p uid' (n + 1) (bound E p uid n w)))
  login_twice_close-closed p uid uid' n w c h o i =
      bind-ok (bind_user E p uid >> bind_user E p uid') (λ _. close E p) w
        (login_twice-bound p uid uid' n w c h)
      ∙ close-closed E laws p uid' (n + 1) (bound E p uid' (n + 1) (bound E p uid n w))
          (counter-bound E laws p uid' (n + 1) (bound E p uid n w) (omega arith))
          (bound_open E laws p uid' (n + 1) (bound E p uid n w) (bound_open E laws p uid n w o))
          (bound_user E laws p uid' (n + 1) (bound E p uid n w)) i

  -- Let Redis keep what is written to a hash (HashLaws), let the server's counter read as `n`, at
  -- least two below the largest `int`, and let a session be open. If two different users, the
  -- second with a positive uid, are bound to the session by two logins and the session is then
  -- closed, all of it returns, the counter stays at `n + 1`, and the first user is still found on
  -- the session, which is closed.
  login_twice_then_close :
      (p : ℕ) (uid uid' : ℤ) (n : ℕ) (w : World S)
      → counter E w ≡ some (pos n)
      → n < 2 ^ 31 - 2
      → (w.sessions p).b_close ≡ false
      → is_pos uid' ≡ true
      → uid ≢ uid'
      → let r = (bind_user E p uid >> bind_user E p uid' >> close E p) w in
        (r.0 ≡ Outcome.ok tt)
        × (counter E r.1 ≡ some (pos (n + 1)))
        × (find uid r.1.uid_to_session ≡ some p)
        × ((r.1.sessions p).b_close ≡ true)
  unfolding closed bound
  login_twice_then_close p uid uid' n w c h o i ne =
      rw (login_twice_close-closed p uid uid' n w c h o i) (
        refl,
        counter-closed E laws p uid' (n + 1) (bound E p uid' (n + 1) (bound E p uid n w))
            (omega arith),
        kept,
        simp store,
      )
    where
      apart : int_eq uid' uid ≡ false
      apart = ground (arith, int_eq_iff uid' uid)

      same : int_eq uid uid ≡ true
      same = beq_refl uid

      kept : find uid (erase uid' (assign uid' p (assign uid p w.uid_to_session))) ≡ some p
      kept = simp (find-erase, find-assign, apart, same)
