-- ===== src/Session/Receive/Lost.antt =====
-- src/net/CSession.cpp: a read that fails, as it does when the client is gone.
use chat_server.Base.{ℕ, ◌≡◌, refl, ap, ◌∙◌, true, false, none}
use chat_server.Base.Text.{Str, str_key}
use chat_server.Base.Dict.{find, erase, find-erase, beq_refl}
use chat_server.Base.Int.{is_pos}
use chat_server.Domain.{login_count}
use chat_server.Services.{Services}
use chat_server.Frame.{Outcome}
use chat_server.World.{World, Purpose, Reading, skip, catch, resume, recover}
use chat_server.World.Store.{update_self, with_reading, bind-ok, catch-ok}
use chat_server.Session.{close, close_and_clear, clear_session, read_count}
use chat_server.Session.Close.{close_twice, close_throws}
use chat_server.Session.Receive.{ReadEvent, read_event, on_error, set_reading}

module _ {S : Type 0} (E : Services S) where
  -- The world after the server has forgotten the session at `p`.
  abbrev forgotten : ℕ → World S → World S
  forgotten p w = record w { server_sessions = erase (w.sessions p).session_id w.server_sessions }

  closes_and_clears :
      (p : ℕ) (w w' : World S)
      → close E p w ≡ (Outcome.ok tt, w')
      → close_and_clear E p w ≡ (Outcome.ok tt, forgotten p w')
  unfolding close_and_clear clear_session
  closes_and_clears p w w' e = bind-ok (close E p) (λ _. clear_session p) w e

  failed_read :
      (p want : ℕ) (purpose : Purpose) (got : Str) (w : World S)
      → (w.sessions p).reading ≡ Reading.reading purpose got want
      → read_event E p ReadEvent.failed w
        ≡ catch (close_and_clear E p) skip (with_reading p Reading.idle w)
  unfolding read_event on_error set_reading
  failed_read p want purpose got w e = rw e

  -- Let a session wait for bytes, and let `close` return for it. Then a failed read returns; the
  -- session is closed, and the server's map has no session under its id.
  pub read_event-lost :
      (p want : ℕ) (purpose : Purpose) (got : Str) (w w' : World S)
      → (w.sessions p).reading ≡ Reading.reading purpose got want
      → close E p (with_reading p Reading.idle w) ≡ (Outcome.ok tt, w')
      → let r = read_event E p ReadEvent.failed w in
        (r.0 ≡ Outcome.ok tt)
        × ((r.1.sessions p).b_close ≡ true)
        × (find (r.1.sessions p).session_id r.1.server_sessions ≡ none)
  read_event-lost p want purpose got w w' e c =
      rw
        (failed_read p want purpose got w e
          ∙ catch-ok (close_and_clear E p) skip (with_reading p Reading.idle w)
              (closes_and_clears p (with_reading p Reading.idle w) w' c))
        (refl, (close_twice E p (with_reading p Reading.idle w) w' c).0, gone)
    where
      gone :
          find (w'.sessions p).session_id (erase (w'.sessions p).session_id w'.server_sessions)
          ≡ none
      gone = rw (find-erase, beq_refl (w'.sessions p).session_id)

  throws_and_stays :
      (p : ℕ) (w w' : World S)
      → close E p w ≡ (Outcome.throws, w')
      → close_and_clear E p w ≡ (Outcome.throws, w')
  unfolding close_and_clear
  throws_and_stays p w w' e = ap (resume (λ _. clear_session p)) e

  -- Let a logged-in user's open session wait for bytes, and let the login counter not read as a
  -- number. Then a failed read returns, and all that changes, but for the services, is that the
  -- session reads no more: it is not closed, and stays in the maps with its user.
  read_event-leaks :
      (p want : ℕ) (purpose : Purpose) (got : Str) (w : World S)
      → (w.sessions p).reading ≡ Reading.reading purpose got want
      → (w.sessions p).b_close ≡ false
      → is_pos (w.sessions p).user_uid ≡ true
      → read_count (E.redis_h_get login_count E.self_name w.outside).0 ≡ none
      → read_event E p ReadEvent.failed w ≡ (
        Outcome.ok tt,
        record (with_reading p Reading.idle w) {
          outside = (E.redis_h_get login_count E.self_name w.outside).1;
        },
      )
  read_event-leaks p want purpose got w e o i c =
      failed_read p want purpose got w e
      ∙ ap (recover skip) (
          throws_and_stays p (with_reading p Reading.idle w) _ (
            close_throws E p (with_reading p Reading.idle w) (rw update_self o) (rw update_self i)
              c))
