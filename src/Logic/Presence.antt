-- ===== src/Logic/Presence.antt =====
-- src/application/LogicSystem.cpp with src/net/CSession.cpp: the login counter and the session map
-- from a login to the end of the connection.
pub mod Twice
pub mod Elsewhere
pub mod Race
use chat_server.Base.{
  ℕ, ◌+◌, ◌-◌, ◌<◌, ◌^◌, ◌==◌, ◌≡◌, ◌≢◌, refl, ap, ◌∙◌, true, false, Option, none, some, [], ◌∷◌,
  ◌++◌, arith,
}
use chat_server.Base.Int.{ℤ, pos, is_pos, int_eq, int_eq_iff}
use chat_server.Base.Text.{Str, bytes}
use chat_server.Base.Dict.{find, assign, erase, int_key, find-assign, find-erase, beq_refl}
use chat_server.Base.Decimal.{to_string, stoi-to_string, to_string-nonempty}
use chat_server.Domain.{login_count, user_ip_key}
use chat_server.Services.{Services, HashLaws}
use chat_server.Frame.{Outcome}
use chat_server.World.{World, update, ◌>>◌}
use chat_server.World.Store.{update_self, store, bind-ok}
use chat_server.Session.{close, read_count}
use chat_server.Logic.Login.{bind_user}

pub read_count-to_string : (n : ℕ) → n < 2 ^ 31 → read_count (to_string (pos n)) ≡ some (pos n)
read_count-to_string n h = rw (to_string-nonempty (pos n) h, stoi-to_string (pos n) h)

abbrev pub head_of : Str → ℕ
head_of [] = 0
head_of (c ∷ s) = c

-- Every key of a user starts with another letter than the key of the counters.
pub login_count-ne : (key : Str) → head_of key ≡ b'u' → login_count ≢ key
login_count-ne key u e = apart _ _ refl u (ap head_of e)
  where
    apart : (a b : ℕ) → a ≡ b'l' → b ≡ b'u' → a ≢ b
    apart a b h k = omega arith

login_count-ne-user_ip_key : (uid : ℤ) → login_count ≢ user_ip_key uid
unfolding user_ip_key
login_count-ne-user_ip_key uid = login_count-ne (bytes "uip_" ++ to_string uid) refl

module _ {S : Type 0} (E : Services S) where
  -- The login counter of this server, as the code reads it.
  abbrev pub counter : World S → Option ℤ
  counter w = read_count (E.redis_h_get login_count E.self_name w.outside).0

  -- The services after the counter was read and written.
  abbrev rewritten : ℤ → S → S
  rewritten z s =
      (E.redis_h_set login_count E.self_name (to_string z)
        (E.redis_h_get login_count E.self_name s).1).1

  -- The world after the user was bound to the session at `p`, with `n` logins before.
  unfoldable pub bound : ℕ → ℤ → ℕ → World S → World S
  bound p uid n w = record w {
    outside = (E.redis_set (user_ip_key uid) E.self_name (rewritten (pos (n + 1)) w.outside)).1;
    sessions = update w.sessions p (record (w.sessions p) { user_uid = uid });
    uid_to_session = assign uid p w.uid_to_session;
  }

  -- The world after the session was closed, with `n` logins left.
  unfoldable pub closed : ℕ → ℤ → ℕ → World S → World S
  closed p uid n w = record w {
    outside = rewritten (pos n) w.outside;
    sessions =
        update w.sessions p
          (record (w.sessions p) { user_uid = pos 0; socket_open = false; b_close = true });
    uid_to_session = erase uid w.uid_to_session;
  }

module _ {S : Type 0} (E : Services S) (laws : HashLaws E) where
  counter-rewritten :
      (n : ℕ) (s : S)
      → n < 2 ^ 31
      → read_count (E.redis_h_get login_count E.self_name (rewritten E (pos n) s)).0 ≡ some (pos n)
  counter-rewritten n s h = rw laws.h_get-h_set (read_count-to_string n h)

  pub bind_user-bound :
      (p : ℕ) (uid : ℤ) (n : ℕ) (w : World S)
      → counter E w ≡ some (pos n)
      → n < 2 ^ 31 - 1
      → bind_user E p uid w ≡ (Outcome.ok tt, bound E p uid n w)
  unfolding bind_user bound
  bind_user-bound p uid n w c h = rw (c, below)
    where
      below : (n == 2 ^ 31 - 1) ≡ false
      below = ground arith

  pub counter-bound :
      (p : ℕ) (uid : ℤ) (n : ℕ) (w : World S)
      → n < 2 ^ 31 - 1
      → counter E (bound E p uid n w) ≡ some (pos (n + 1))
  unfolding bound
  counter-bound p uid n w h =
      rw (laws.h_get-set _ _ _ _ _ (login_count-ne-user_ip_key uid))
        (counter-rewritten (n + 1) w.outside (omega arith))

  pub close-closed :
      (p : ℕ) (uid : ℤ) (n : ℕ) (w : World S)
      → counter E w ≡ some (pos (n + 1))
      → (w.sessions p).b_close ≡ false
      → (w.sessions p).user_uid ≡ uid
      → is_pos uid ≡ true
      → close E p w ≡ (Outcome.ok tt, closed E p uid n w)
  unfolding close closed
  close-closed p uid n w c o u i = rw (o, u, i, c, store, less)
    where
      less : n + 1 - 1 ≡ n
      less = omega arith

  pub counter-closed :
      (p : ℕ) (uid : ℤ) (n : ℕ) (w : World S)
      → n < 2 ^ 31
      → counter E (closed E p uid n w) ≡ some (pos n)
  unfolding closed
  counter-closed p uid n w h = counter-rewritten n w.outside h

  pub bound_user :
      (p : ℕ) (uid : ℤ) (n : ℕ) (w : World S) → ((bound E p uid n w).sessions p).user_uid ≡ uid
  unfolding bound
  bound_user p uid n w = simp store

  pub bound_open :
      (p : ℕ) (uid : ℤ) (n : ℕ) (w : World S)
      → (w.sessions p).b_close ≡ false
      → ((bound E p uid n w).sessions p).b_close ≡ false
  unfolding bound
  bound_open p uid n w h = rw update_self h

  login_close-closed :
      (p : ℕ) (uid : ℤ) (n : ℕ) (w : World S)
      → counter E w ≡ some (pos n)
      → n < 2 ^ 31 - 1
      → (w.sessions p).b_close ≡ false
      → is_pos uid ≡ true
      → (bind_user E p uid >> close E p) w ≡ (Outcome.ok tt, closed E p uid n (bound E p uid n w))
  login_close-closed p uid n w c h o i =
      bind-ok (bind_user E p uid) (λ _. close E p) w (bind_user-bound p uid n w c h)
      ∙ close-closed p uid n (bound E p uid n w) (counter-bound p uid n w h)
          (bound_open p uid n w o) (bound_user p uid n w) i

  -- Let Redis keep what is written to a hash (HashLaws), let the server's counter read as `n`,
  -- below the largest `int`, and let a session be open. Then the part of a login of a user with a
  -- positive uid that binds him to the session, and a `close` of the session after it, return; the
  -- counter reads as `n` again, no session is found for the user, and the session is closed, with
  -- its socket, and has no user.
  pub login_then_close :
      (p : ℕ) (uid : ℤ) (n : ℕ) (w : World S)
      → counter E w ≡ some (pos n)
      → n < 2 ^ 31 - 1
      → (w.sessions p).b_close ≡ false
      → is_pos uid ≡ true
      → let r = (bind_user E p uid >> close E p) w in
        (r.0 ≡ Outcome.ok tt)
        × (counter E r.1 ≡ some (pos n))
        × (find uid r.1.uid_to_session ≡ none)
        × (r.1.sessions p
            ≡ record (w.sessions p) { user_uid = pos 0; socket_open = false; b_close = true })
  unfolding closed bound
  login_then_close p uid n w c h o i =
      rw (login_close-closed p uid n w c h o i)
        (refl, counter-closed p uid n (bound E p uid n w) (omega arith), erased, simp store)
    where
      erased : find uid (erase uid (assign uid p w.uid_to_session)) ≡ none
      erased = rw (find-erase, beq_refl uid)
