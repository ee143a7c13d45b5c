-- ===== src/Logic/Cache.antt =====
-- src/application/LogicSystem.cpp: the copies of users' data that Redis holds, and what a search of
-- a user answers with and without one.
use chat_server.Base.{
  ◌≡◌, refl, true, false, if◌then◌else◌, none, some, [], arith, Bool-cases, inl, inr,
}
use chat_server.Base.Int.{ℤ}
use chat_server.Base.Text.{Str, str_eq, is_empty, str_key}
use chat_server.Base.Dict.{beq_refl}
use chat_server.Base.Decimal.{stoi}
use chat_server.Domain.{UserInfo, ErrorCode, user_base_key, user_name_key}
use chat_server.Json.{Json, JsonLaws, Reads}
use chat_server.Profile.{put_profile, read_profile, put_error}
use chat_server.Services.{Services, TextLaws}
use chat_server.Frame.{Outcome}
use chat_server.World.{World}
use chat_server.Logic.Lookup.{
  get_user_by_uid, query_uid, answer_cached, answer_database, cache_profile,
}

-- What a copy keeps of a user's data.
abbrev pub profile : UserInfo → UserInfo
profile u = record u { back = []; alias_name = [] }

module _ {V : Type 0} (J : Json V) (laws : JsonLaws J) where
  -- Where the JSON library gives back what an object was made of (JsonLaws), reading the object
  -- that is written for a user gives the user's data, but for the two fields `back` and
  -- `alias_name`, which are empty.
  read_profile-put_profile :
      (u : UserInfo) → read_profile J (J.object (put_profile J u [])) ≡ some (profile u)
  unfolding read_profile
  read_profile-put_profile u = simp (laws.get-object, laws.as_int-of_int, laws.as_string-of_string)

user_key-apart : (a b : Str) → str_eq (user_name_key a) (user_base_key b) ≡ false
unfolding user_name_key user_base_key
user_key-apart a b = refl

module _ {S V : Type 0} (J : Json V) (E : Services S) where
  -- The text that a search writes for a user.
  abbrev pub copy_of : UserInfo → Str
  copy_of u = J.to_styled_string (J.object (put_profile J u []))

  -- The services after a copy was written under a uid, and under a name unless that is empty.
  abbrev cached : Str → UserInfo → S → S
  cached uid_str u s =
      let s' = (E.redis_set (user_base_key uid_str) (copy_of u) s).1 in
      if is_empty u.name then s' else (E.redis_set (user_name_key u.name) (copy_of u) s').1

  cache_profile-cached :
      (uid_str : Str) (u : UserInfo) (w : World S)
      → cache_profile J E (user_base_key uid_str) u (copy_of u) w
        ≡ (Outcome.ok tt, record w { outside = cached uid_str u w.outside })
  unfolding cache_profile
  cache_profile-cached uid_str u w = ground arith

  cached-found :
      (laws : TextLaws E) (uid_str : Str) (u : UserInfo) (s : S)
      → (E.redis_get (user_base_key uid_str) (cached uid_str u s)).0 ≡ some (copy_of u)
  cached-found laws uid_str u s = elim (Bool-cases (is_empty u.name)) [
    | inl e ↦ rw (e, laws.get-set, same)
    | inr e ↦ rw (e, laws.get-set, user_key-apart u.name uid_str, laws.get-set, same)
  ]
    where
      same : str_eq (user_base_key uid_str) (user_base_key uid_str) ≡ true
      same = beq_refl (user_base_key uid_str)

  miss :
      (uid_str : Str) (uid : ℤ) (u : UserInfo) (w : World S)
      → (E.redis_get (user_base_key uid_str) w.outside).0 ≡ none
      → stoi uid_str ≡ some uid
      → (E.user_by_uid uid (E.redis_get (user_base_key uid_str) w.outside).1).0 ≡ some u
      → get_user_by_uid J E uid_str w ≡ (
        Outcome.ok (put_error J ErrorCode.success []),
        record w {
          outside =
              cached uid_str u
                (E.user_by_uid uid (E.redis_get (user_base_key uid_str) w.outside).1).1;
        },
      )
  unfolding get_user_by_uid query_uid answer_database
  miss uid_str uid u w none_there number found =
      rw (none_there, number, found, cache_profile-cached)

  hit :
      (laws : JsonLaws J) (uid_str : Str) (u : UserInfo) (w : World S)
      → (E.redis_get (user_base_key uid_str) w.outside).0 ≡ some (copy_of u)
      → Reads J (copy_of u) (J.object (put_profile J u []))
      → (get_user_by_uid J E uid_str w).0
        ≡ Outcome.ok (put_profile J (profile u) (put_error J ErrorCode.success []))
  unfolding get_user_by_uid answer_cached
  hit laws uid_str u w there reads = rw (there, reads, read_profile-put_profile J laws u)

  -- Let the JSON library give back what an object was made of (JsonLaws), and read the text that it
  -- writes for the user as the object it was written for; let Redis keep texts (TextLaws), but hold
  -- no copy of a user under a uid; and let MySQL have the user. Then a search of the uid answers
  -- with nothing but SUCCESS, and the same search after it answers with the user's data.
  pub search_twice :
      (laws : JsonLaws J) (text_laws : TextLaws E) (uid_str : Str) (uid : ℤ) (u : UserInfo)
      (w : World S)
      → (E.redis_get (user_base_key uid_str) w.outside).0 ≡ none
      → stoi uid_str ≡ some uid
      → (E.user_by_uid uid (E.redis_get (user_base_key uid_str) w.outside).1).0 ≡ some u
      → Reads J (copy_of u) (J.object (put_profile J u []))
      → let first = get_user_by_uid J E uid_str w in
        (first.0 ≡ Outcome.ok (put_error J ErrorCode.success []))
        × ((get_user_by_uid J E uid_str first.1).0
            ≡ Outcome.ok (put_profile J (profile u) (put_error J ErrorCode.success [])))
  search_twice laws text_laws uid_str uid u w none_there number found reads =
      rw (miss uid_str uid u w none_there number found)
        (refl, hit laws uid_str u _ (cached-found text_laws uid_str u _) reads)
