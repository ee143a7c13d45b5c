-- ===== src/Profile.antt =====
-- The copy of a user's data that Redis holds as JSON, written by src/application/LogicSystem.cpp
-- and src/application/ChatServiceImpl.cpp and read back by both.
use chat_server.Base.{String, Option, none, some}
use chat_server.Base.Int.{ℤ}
use chat_server.Base.Text.{Str}
use chat_server.Domain.{UserInfo, new_user_info, ErrorCode, error_number}
use chat_server.Json.{Json, Members, put, int_member, text_member}

infixl 5 ◌>>=◌
abbrev ◌>>=◌ {ℓ κ} : {A : Type ℓ} {B : Type κ} → Option A → (A → Option B) → Option B
none >>= f = none
some a >>= f = f a

module _ {V : Type 0} (J : Json V) where
  abbrev pub put_int : String → ℤ → Members V → Members V
  put_int k z = put k (J.of_int z)

  abbrev pub put_text : String → Str → Members V → Members V
  put_text k s = put k (J.of_string s)

  abbrev pub put_error : ErrorCode → Members V → Members V
  put_error e = put_int "error" (error_number e)

  -- The eight members that stand in a cached copy and in the reply of a search.
  abbrev pub put_profile : UserInfo → Members V → Members V
  put_profile u m = put_text "icon" u.icon (
      put_int "sex" u.sex (
        put_text "desc" u.desc (
          put_text "nick" u.nick (
            put_text "email" u.email
              (put_text "pwd" u.pwd (put_text "name" u.name (put_int "uid" u.uid m)))))))

  -- What the code reads back from a cached copy; the fields that it leaves out stay empty.
  unfoldable pub read_profile : V → Option UserInfo
  read_profile root = do
    uid ← int_member J root "uid"
    name ← text_member J root "name"
    pwd ← text_member J root "pwd"
    email ← text_member J root "email"
    nick ← text_member J root "nick"
    desc ← text_member J root "desc"
    sex ← int_member J root "sex"
    icon ← text_member J root "icon"
    some (record new_user_info {
      uid = uid;
      name = name;
      pwd = pwd;
      email = email;
      nick = nick;
      desc = desc;
      sex = sex;
      icon = icon;
    })
