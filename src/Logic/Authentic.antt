-- ===== src/Logic/Authentic.antt =====
-- src/application/LogicSystem.cpp: who is logged in, and what a login needs.
use chat_server.Base.{
  arith, ℕ, ◌≡◌, refl, ap, ◌∙◌, if◌then◌else◌, Option, none, some, [], Bool-cases, Option-cases,
  inl, inr, ◌⊎◌,
}
use chat_server.Base.Int.{ℤ}
use chat_server.Base.Text.{Str, str_eq, str_eq_iff, str_key}
use chat_server.Base.Dict.{Dict, assign, int_key, beq_refl}
use chat_server.Base.Decimal.{to_string}
use chat_server.Domain.{ErrorCode, MsgId, msg_number, user_token_key, user_ip_key}
use chat_server.Json.{Json, Members, int_member, text_member}
use chat_server.Profile.{put_error}
use chat_server.Services.{Services}
use chat_server.Frame.{Outcome}
use chat_server.World.{World, M, call, ◌>>=◌}
use chat_server.World.Keeps.{
  IsApart, Keeps, Keeps-at, Keeps-set_user_id, Keeps-call, Keeps-pure, Keeps-send,
}
use chat_server.World.Changes.{
  Changes, Changes-at, Changes-later, Changes-first, Changes-kept, Changes-found,
  Changes-set_user_session,
}
use chat_server.Logic.Keeps.{get_base_info-Keeps, count_login-Keeps}
use chat_server.Session.{send, set_user_id}
use chat_server.Logic.Login.{bind_user, count_login, accept_login, login_result, login_handler}

-- `UserMgr::_uid_to_session`, which no service and no session bears on.
abbrev pub users : {S : Type 0} → World S → Dict ℤ ℕ
users w = w.uid_to_session

pub users-IsApart : {S : Type 0} → IsApart (users {S = S})
users-IsApart = record { from_outside = λ w s. refl; from_sessions = λ w h. refl }

-- The error that a login fails with, from the token that Redis has for the user.
abbrev pub rejection : Option Str → Str → Option ErrorCode
rejection none token = some ErrorCode.uid_invalid
rejection (some stored) token = if str_eq stored token then none else some ErrorCode.token_invalid

module _ {S V : Type 0} (J : Json V) (E : Services S) where
  rejected_result :
      (p : ℕ) (uid : ℤ) (token : Str) (e : ErrorCode) (w : World S)
      → rejection (E.redis_get (user_token_key (to_string uid)) w.outside).0 token ≡ some e
      → login_result J E p uid token w ≡ (
        Outcome.ok (put_error J e []),
        record w { outside = (E.redis_get (user_token_key (to_string uid)) w.outside).1 },
      )
  unfolding login_result
  rejected_result p uid token e w h = ground arith

  -- A login whose token is not the one that Redis holds, or for which Redis holds none, does
  -- nothing but reply with TOKEN_INVALID or UID_INVALID: no counter, key, user or session is bound.
  login_rejected :
      (p : ℕ) (msg_data : Str) (uid : ℤ) (token : Str) (e : ErrorCode) (w : World S)
      → int_member J (J.parse msg_data).1 "uid" ≡ some uid
      → text_member J (J.parse msg_data).1 "token" ≡ some token
      → rejection (E.redis_get (user_token_key (to_string uid)) w.outside).0 token ≡ some e
      → login_handler J E p msg_data w
        ≡ send p
            (J.to_styled_string (J.object (put_error J e [])))
            (msg_number MsgId.chat_login_rsp)
            (record w { outside = (E.redis_get (user_token_key (to_string uid)) w.outside).1 })
  unfolding login_handler
  login_rejected p msg_data uid token e w hu ht h = rw (hu, ht, rejected_result p uid token e w h)

  bind_user-Changes : (p : ℕ) (uid : ℤ) → Changes users (assign uid p) (bind_user E p uid)
  unfolding bind_user
  bind_user-Changes p uid =
      let count : Keeps users (count_login E) = count_login-Keeps J E users users-IsApart in
      Changes-later users (assign uid p) (count_login E) _ count λ _.
        Changes-later users (assign uid p) (set_user_id p uid) _
          (Keeps-set_user_id users users-IsApart p uid)
          λ _.
            Changes-later users (assign uid p) (call (E.redis_set (user_ip_key uid) E.self_name)) _
              (Keeps-call users users-IsApart _) λ _. Changes-set_user_session S uid p

  accept_login-Changes : (p : ℕ) (uid : ℤ) → Changes users (assign uid p) (accept_login J E p uid)
  unfolding accept_login
  accept_login-Changes p uid =
      let base = get_base_info-Keeps J E users users-IsApart in
      let bound = bind_user-Changes p uid in
      search
        (
          Changes-later, Changes-first, Changes-kept, Changes-found, base, bound, users-IsApart,
          Keeps-call, Keeps-pure,
        )
        depth 12

  unfoldable pub reply_login : ℕ → Members V → M S (Unit {0})
  reply_login p reply =
      send p (J.to_styled_string (J.object reply)) (msg_number MsgId.chat_login_rsp)

  -- With the token that Redis holds, the handler goes on as `accept_login`.
  pub accepted_handler :
      (p : ℕ) (msg_data : Str) (uid : ℤ) (token : Str) (w : World S)
      → int_member J (J.parse msg_data).1 "uid" ≡ some uid
      → text_member J (J.parse msg_data).1 "token" ≡ some token
      → (E.redis_get (user_token_key (to_string uid)) w.outside).0 ≡ some token
      → login_handler J E p msg_data w
        ≡ (accept_login J E p uid >>= reply_login p)
            (record w { outside = (E.redis_get (user_token_key (to_string uid)) w.outside).1 })
  unfolding login_handler reply_login
  accepted_handler p msg_data uid token w hu ht e = rw (hu, ht, e, beq_refl token, login_result)

  -- What a login that binds has shown: the members of the message, and the token in Redis.
  abbrev pub Authorised : Str → World S → ℤ → Str → Type 0
  Authorised msg_data w uid token =
      (int_member J (J.parse msg_data).1 "uid" ≡ some uid)
      × (text_member J (J.parse msg_data).1 "token" ≡ some token)
      × ((E.redis_get (user_token_key (to_string uid)) w.outside).0 ≡ some token)

  abbrev pub Binds : ℕ → Str → World S → World S → Type 0
  Binds p msg_data w w' =
      (w'.uid_to_session ≡ w.uid_to_session)
      ⊎ ((uid : ℤ) × (token : Str) × Authorised msg_data w uid token
          × (w'.uid_to_session ≡ assign uid p w.uid_to_session))

  refused :
      (p : ℕ) (msg_data : Str) (uid : ℤ) (token : Str) (e : ErrorCode) (w : World S)
      → int_member J (J.parse msg_data).1 "uid" ≡ some uid
      → text_member J (J.parse msg_data).1 "token" ≡ some token
      → rejection (E.redis_get (user_token_key (to_string uid)) w.outside).0 token ≡ some e
      → Binds p msg_data w (login_handler J E p msg_data w).1
  refused p msg_data uid token e w hu ht h = inl (
      rw (login_rejected p msg_data uid token e w hu ht h)
        (Keeps-at users _ (Keeps-send users users-IsApart p _ _) _))

  accepted :
      (p : ℕ) (msg_data : Str) (uid : ℤ) (token : Str) (w : World S)
      → Authorised msg_data w uid token
      → Binds p msg_data w (login_handler J E p msg_data w).1
  unfolding reply_login
  accepted p msg_data uid token w (hu, ht, h) =
      rw (accepted_handler p msg_data uid token w hu ht h)
        (elim (Changes-at users (assign uid p) _ changes
          (record w { outside = (E.redis_get (user_token_key (to_string uid)) w.outside).1 })) [
            | inl same ↦ inl same
            | inr new ↦ inr (uid, token, (hu, ht, h), new)
          ])
    where
      changes : Changes users (assign uid p) (accept_login J E p uid >>= reply_login p)
      changes =
          Changes-first users (assign uid p) (accept_login J E p uid) (reply_login p)
            (accept_login-Changes p uid) λ reply. Keeps-send users users-IsApart p _ _

  stored_case :
      (p : ℕ) (msg_data : Str) (uid : ℤ) (token : Str) (stored : Option Str) (w : World S)
      → (E.redis_get (user_token_key (to_string uid)) w.outside).0 ≡ stored
      → int_member J (J.parse msg_data).1 "uid" ≡ some uid
      → text_member J (J.parse msg_data).1 "token" ≡ some token
      → Binds p msg_data w (login_handler J E p msg_data w).1
  stored_case p msg_data uid token none w h hu ht =
      refused p msg_data uid token ErrorCode.uid_invalid w hu ht (rw h)
  stored_case p msg_data uid token (some t) w h hu ht = elim (Bool-cases (str_eq t token)) [
    | inl same ↦ accepted p msg_data uid token w (hu, ht, h ∙ ap some ((str_eq_iff t token).0 same))
    | inr other ↦ refused p msg_data uid token ErrorCode.token_invalid w hu ht (rw (h, other))
  ]

  -- Whatever a login request holds and however its handling ends, UserMgr's map is as before, or
  -- the request named a user with the token that Redis holds for the user, and the map now has
  -- this session for that user and is otherwise as before.
  pub login_authentic :
      (p : ℕ) (msg_data : Str) (w : World S) → Binds p msg_data w (login_handler J E p msg_data w).1
  unfolding login_handler
  login_authentic p msg_data w = elim (Option-cases (int_member J (J.parse msg_data).1 "uid")) [
    | inl hu ↦ inl (rw hu)
    | inr (uid, hu) ↦ elim (Option-cases (text_member J (J.parse msg_data).1 "token")) [
      | inl ht ↦ inl (rw (hu, ht))
      | inr (token, ht) ↦ stored_case p msg_data uid token _ w refl hu ht
    ]
  ]
