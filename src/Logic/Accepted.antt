-- ===== src/Logic/Accepted.antt =====
-- src/application/LogicSystem.cpp: a login with the right token, from the request to the reply.
use chat_server.Session.Sent.{send-sent}
use chat_server.Base.{
  ℕ, ◌+◌, ◌-◌, ◌<◌, ◌^◌, ◌≡◌, ◌≢◌, refl, ◌∙◌, false, if◌then◌else◌, Option, none, some, String,
  List, [], ◌∷◌, ◌++◌, map, Bool-cases, inl, inr,
}
use chat_server.Base.Int.{ℤ, pos}
use chat_server.Base.Text.{Str, str_eq, str_key, bytes, is_empty}
use chat_server.Base.Dict.{find, assign, find-assign, int_key}
use chat_server.Base.Decimal.{to_string}
use chat_server.Domain.{
  UserInfo, ApplyInfo, ErrorCode, MsgId, msg_number, user_base_key, user_name_key, user_token_key,
  login_count,
}
use chat_server.Json.{Json, Members, int_member, text_member}
use chat_server.Profile.{put_profile, put_error}
use chat_server.Services.{Services, HashLaws, ReadLaws}
use chat_server.Frame.{Outcome}
use chat_server.World.{World}
use chat_server.World.Store.{store}
use chat_server.Session.{send_text}
use chat_server.Logic.Lookup.{nick_or_name, cache_profile, get_base_info}
use chat_server.Logic.Login.{
  put_user, put_values, put_applies, friend_value, accept_login, login_handler,
}
use chat_server.Logic.Authentic.{accepted_handler, reply_login}
use chat_server.Logic.Presence.{counter, bound, bind_user-bound, counter-bound, login_count-ne}

-- A list under another key leaves a member as it is.
find-put_values :
    {V : Type 0} (J : Json V) (k : String) (j : Str) (vs : List V) (m : Members V)
    → str_eq (bytes k) j ≡ false
    → find j (put_values J k vs m) ≡ find j m
find-put_values J k j [] m ne = refl
find-put_values J k j (v ∷ vs) m ne = rw (find-assign, ne)

find-put_applies :
    {V : Type 0} (J : Json V) (j : Str) (applies : Option (List ApplyInfo)) (m : Members V)
    → str_eq (bytes "apply_list") j ≡ false
    → find j (put_applies J applies m) ≡ find j m
find-put_applies J j none m ne = refl
find-put_applies J j (some applies) m ne = find-put_values J "apply_list" j _ m ne

login_count-ne-user_base_key : (uid : Str) → login_count ≢ user_base_key uid
unfolding user_base_key
login_count-ne-user_base_key uid = login_count-ne (bytes "ubaseinfo_" ++ uid) refl

login_count-ne-user_name_key : (name : Str) → login_count ≢ user_name_key name
unfolding user_name_key
login_count-ne-user_name_key name = login_count-ne (bytes "unameinfo_" ++ name) refl

module _ {S V : Type 0} (J : Json V) (E : Services S) where
  -- The services after the copies of a user were written.
  abbrev copied : Str → UserInfo → S → S
  copied key u s =
      let text = J.write (J.object (put_profile J u [])) in
      let s' = (E.redis_set key text s).1 in
      if is_empty u.name then s' else (E.redis_set (user_name_key u.name) text s').1

  -- The services after the user was looked up and his copies were written, and after the queries
  -- of his applications and friends as well.
  abbrev looked_up : ℤ → UserInfo → S → S
  looked_up uid u s =
      copied (user_base_key (to_string uid)) (nick_or_name u) (E.user_by_uid uid s).1

  abbrev queried : ℤ → UserInfo → S → S
  queried uid u s = (E.get_friend_list uid (E.get_apply_list uid 0 10 (looked_up uid u s)).1).1

  -- The reply.
  abbrev welcome : ℤ → UserInfo → S → Members V
  welcome uid u s =
      let s' = looked_up uid u s in
      let applies = E.get_apply_list uid 0 10 s' in
      put_values J "friend_list" (map (friend_value J) (E.get_friend_list uid applies.1).0.1) (
        put_applies J applies.0
          (put_user J uid (nick_or_name u) (put_error J ErrorCode.success [])))

  -- The lists leave the members of the user as they are.
  find-welcome :
      (j : Str) (uid : ℤ) (u : UserInfo) (s : S)
      → str_eq (bytes "friend_list") j ≡ false
      → str_eq (bytes "apply_list") j ≡ false
      → find j (welcome uid u s)
        ≡ find j (put_user J uid (nick_or_name u) (put_error J ErrorCode.success []))
  find-welcome j uid u s nf na =
      let s' = looked_up uid u s in
      let applies = E.get_apply_list uid 0 10 s' in
      let start = put_user J uid (nick_or_name u) (put_error J ErrorCode.success []) in
      find-put_values J "friend_list" j (map (friend_value J) (E.get_friend_list uid applies.1).0.1)
        (put_applies J applies.0 start) nf
      ∙ find-put_applies J j applies.0 start na

  get_base_info-found :
      (key : Str) (uid : ℤ) (u : UserInfo) (w : World S)
      → (E.user_by_uid uid w.outside).0 ≡ some u
      → get_base_info J E key uid w ≡ (
        Outcome.ok (some (nick_or_name u)),
        record w { outside = copied key (nick_or_name u) (E.user_by_uid uid w.outside).1 },
      )
  unfolding get_base_info cache_profile
  get_base_info-found key uid u w found = elim (Bool-cases (is_empty u.name)) [
    | inl e ↦ rw (found, e)
    | inr e ↦ rw (found, e)
  ]

module _ {S V : Type 0} (J : Json V) (E : Services S) (laws : HashLaws E) (reads : ReadLaws E) where
  copied-count :
      (uid : Str) (u : UserInfo) (s : S)
      → (E.redis_h_get login_count E.self_name (copied J E (user_base_key uid) u s)).0
        ≡ (E.redis_h_get login_count E.self_name s).0
  copied-count uid u s = elim (Bool-cases (is_empty u.name)) [
    | inl e ↦ rw e (laws.h_get-set _ _ _ _ _ (login_count-ne-user_base_key uid))
    | inr e ↦ rw e (
        laws.h_get-set _ _ _ _ _ (login_count-ne-user_name_key u.name)
        ∙ laws.h_get-set _ _ _ _ _ (login_count-ne-user_base_key uid))
  ]

  queried-count :
      (uid : ℤ) (u : UserInfo) (s : S)
      → (E.redis_h_get login_count E.self_name (queried J E uid u s)).0
        ≡ (E.redis_h_get login_count E.self_name s).0
  queried-count uid u s = rw (
    reads.h_get-get_friend_list, reads.h_get-get_apply_list, copied-count, reads.h_get-user_by_uid,
  )

  accept_login-welcome :
      (p : ℕ) (uid : ℤ) (u : UserInfo) (n : ℕ) (w : World S)
      → (E.user_by_uid uid w.outside).0 ≡ some u
      → counter E w ≡ some (pos n)
      → n < 2 ^ 31 - 1
      → accept_login J E p uid w ≡ (
        Outcome.ok (welcome J E uid u w.outside),
        bound E p uid n (record w { outside = queried J E uid u w.outside }),
      )
  unfolding accept_login
  accept_login-welcome p uid u n w found c h = rw (
    get_base_info-found J E (user_base_key (to_string uid)) uid u w found,
    bind_user-bound E laws p uid n (record w { outside = queried J E uid u w.outside })
        (rw (queried-count uid u w.outside) c) h,
  )

  -- Let Redis keep what is written to a hash (HashLaws), and reads change no hash (ReadLaws). Let a
  -- login request name a user and the token that Redis holds for him, let MySQL have the user, and
  -- let the server's counter read as `n`, below the largest `int`. Then the handling returns; the
  -- counter reads as `n + 1`; the user's session is the one of the request, and all other users'
  -- are as before; and the session has the user's uid and was given one object to send, whose error
  -- is SUCCESS, and which has the uid, and the nick or, if that is empty, the name.
  pub login_accepted :
      (p : ℕ) (msg_data : Str) (uid : ℤ) (token : Str) (u : UserInfo) (n : ℕ) (w : World S)
      → int_member J (J.parse msg_data).1 "uid" ≡ some uid
      → text_member J (J.parse msg_data).1 "token" ≡ some token
      → (E.redis_get (user_token_key (to_string uid)) w.outside).0 ≡ some token
      → (E.user_by_uid uid (E.redis_get (user_token_key (to_string uid)) w.outside).1).0 ≡ some u
      → counter E w ≡ some (pos n)
      → n < 2 ^ 31 - 1
      → let r = login_handler J E p msg_data w in
        (r.0 ≡ Outcome.ok tt)
        × (counter E r.1 ≡ some (pos (n + 1)))
        × (r.1.uid_to_session ≡ assign uid p w.uid_to_session)
        × ((m : Members V) × (find (bytes "error") m ≡ some (J.of_int (pos 0)))
            × (find (bytes "uid") m ≡ some (J.of_int uid))
            × (find (bytes "nick") m ≡ some (J.of_string (nick_or_name u).nick))
            × (r.1.sessions p
                ≡ send_text
                    (J.to_styled_string (J.object m))
                    (msg_number MsgId.chat_login_rsp)
                    (record (w.sessions p) { user_uid = uid })))
  unfolding reply_login bound
  login_accepted p msg_data uid token u n w hu ht stored found c h =
      rw
        (
          accepted_handler J E p msg_data uid token w hu ht stored,
          accept_login-welcome p uid u n w' found (rw reads.h_get-get c) h,
          send-sent,
        )
        (
          refl,
          counter-bound E laws p uid n (record w { outside = queried J E uid u w'.outside }) h,
          refl,
          (
            welcome J E uid u w'.outside,
            find-welcome J E (bytes "error") uid u w'.outside refl refl,
            find-welcome J E (bytes "uid") uid u w'.outside refl refl,
            find-welcome J E (bytes "nick") uid u w'.outside refl refl,
            simp store,
          ),
        )
    where
      w' : World S
      w' = record w { outside = (E.redis_get (user_token_key (to_string uid)) w.outside).1 }
