-- ===== src/Session/Close.antt =====
-- src/net/CSession.cpp: what `close` leaves, when it returns and when it throws.
use chat_server.Base.{ℕ, ◌≡◌, sym, ap, ◌∙◌, true, false, Bool-cases, inl, inr, none}
use chat_server.Base.Int.{is_pos}
use chat_server.Domain.{login_count}
use chat_server.Services.{Services}
use chat_server.Frame.{Outcome}
use chat_server.World.{World, M, resume, set_session, when, modify, ◌>>◌}
use chat_server.World.Store.{store, bind-ok}
use chat_server.Session.{close, log_out, read_count}

module _ {S : Type 0} (E : Services S) where
  -- The last step of `close`.
  abbrev shut : ℕ → M S (Unit {0})
  shut p =
      modify (λ w. set_session p (record (w.sessions p) { socket_open = false; b_close = true }) w)

  shut-closed :
      (p : ℕ) (r : Outcome (Unit {0}) × World S) (w' : World S)
      → resume (λ _. shut p) r ≡ (Outcome.ok tt, w')
      → (w'.sessions p).b_close ≡ true
  shut-closed p (Outcome.ok a, w) w' e = rw (← ap (λ r. r.1) e) (simp store)
  shut-closed p (Outcome.throws, w) w' e = cc
  shut-closed p (Outcome.fault, w) w' e = cc

  close-closed_session :
      (p : ℕ) (w : World S) → (w.sessions p).b_close ≡ true → close E p w ≡ (Outcome.ok tt, w)
  unfolding close
  close-closed_session p w h = rw h

  close-open_session :
      (p : ℕ) (w : World S)
      → (w.sessions p).b_close ≡ false
      → close E p w
        ≡ resume
            (λ _. shut p)
            (when (is_pos (w.sessions p).user_uid) (log_out E p (w.sessions p).user_uid) w)
  unfolding close
  close-open_session p w h = rw h

  close-marks :
      (p : ℕ) (w w' : World S) → close E p w ≡ (Outcome.ok tt, w') → (w'.sessions p).b_close ≡ true
  close-marks p w w' e = elim (Bool-cases (w.sessions p).b_close) [
    | inl h ↦ rw (← ap (λ r. r.1) (sym (close-closed_session p w h) ∙ e)) h
    | inr h ↦ shut-closed p _ w' (sym (close-open_session p w h) ∙ e)
  ]

  -- If `close` returns, then it has marked the session closed, and a second `close` changes nothing.
  pub close_twice :
      (p : ℕ) (w w' : World S)
      → close E p w ≡ (Outcome.ok tt, w')
      → ((w'.sessions p).b_close ≡ true) × ((close E p >> close E p) w ≡ (Outcome.ok tt, w'))
  close_twice p w w' e = (
    close-marks p w w' e,
    bind-ok (close E p) (λ _. close E p) w e ∙ close-closed_session p w' (close-marks p w w' e),
  )

  -- Where a logged-in user's session is open and the login counter does not read as a number,
  -- `close` throws, and nothing but the services has changed: the session is open and has its user.
  pub close_throws :
      (p : ℕ) (w : World S)
      → (w.sessions p).b_close ≡ false
      → is_pos (w.sessions p).user_uid ≡ true
      → read_count (E.redis_h_get login_count E.self_name w.outside).0 ≡ none
      → close E p w ≡ (
        Outcome.throws,
        record w { outside = (E.redis_h_get login_count E.self_name w.outside).1 },
      )
  unfolding close log_out
  close_throws p w o i c = rw (o, i, c)
