-- ===== src/Samples.antt =====
-- A small JSON library, and a Redis with a table of users, for the tests: each meets the laws that
-- the theorems ask of the real ones.
use chat_server.Base.{
  ◌≡◌, refl, ap, Bool, true, false, Option, none, some, List, [], ◌∷◌, if◌then◌else◌, arith,
}
use chat_server.Base.Int.{ℤ, pos, int_eq}
use chat_server.Base.Text.{Str, bytes, str_eq, str_key}
use chat_server.Base.Dict.{Dict, find, assign, find-assign, beq_refl}
use chat_server.Domain.{UserInfo, new_user_info}
use chat_server.Json.{Json, JsonLaws, or_null}
use chat_server.World.{World, new_session}
use chat_server.Services.{Services, HashLaws, ReadLaws, TextLaws}

mutual
  pub data Doc : Type 0 where
    null : Doc
    num : ℤ → Doc
    text : Str → Doc
    arr : Docs → Doc
    obj : Docs → Doc

  -- The elements of an array, or the members of an object with their keys.
  pub data Docs : Type 0 where
    nil : Docs
    cons : Str → Doc → Docs → Docs

abbrev pub members : Dict Str Doc → Docs
members [] = nil
members ((k, v) ∷ m) = cons k v (members m)

abbrev pub elements : List Doc → Docs
elements [] = nil
elements (v ∷ vs) = cons [] v (elements vs)

abbrev pub list : Docs → List Doc
list nil = []
list (cons k v vs) = v ∷ list vs

abbrev pub member : Str → Docs → Doc
member k nil = null
member k (cons j v m) = if str_eq j k then v else member k m

abbrev names : Docs → List Str
names nil = []
names (cons k v m) = k ∷ names m

abbrev pub has_member : Str → Docs → Bool
has_member k nil = false
has_member k (cons j v m) = if str_eq j k then true else has_member k m

abbrev pub get : Doc → Str → Option Doc
get null k = some null
get (obj m) k = some (member k m)
get _ k = none

abbrev pub as_int : Doc → Option ℤ
as_int null = some (pos 0)
as_int (num z) = some z
as_int _ = none

abbrev pub as_string : Doc → Option Str
as_string null = some []
as_string (text s) = some s
as_string _ = none

-- Every text reads as the one document.
abbrev pub sample_json : Doc → Json Doc
sample_json root = record {
  parse = λ s. (true, root);
  get = get;
  is_member = λ d k. elim d [ null ↦ some false | obj m ↦ some (has_member k m) | _ ↦ none ];
  as_int = as_int;
  as_string = as_string;
  is_int = λ d. elim d [ num z ↦ true | _ ↦ false ];
  is_object = λ d. elim d [ obj m ↦ true | _ ↦ false ];
  member_names = λ d. elim d [ null ↦ some [] | obj m ↦ some (names m) | _ ↦ none ];
  is_null = λ d. elim d [ null ↦ true | _ ↦ false ];
  is_empty = λ d. elim d [
    | null ↦ true
    | arr vs ↦ elim (list vs) [ [] ↦ true | _ ∷ _ ↦ false ]
    | obj vs ↦ elim (list vs) [ [] ↦ true | _ ∷ _ ↦ false ]
    | _ ↦ false
  ];
  elements = λ d. elim d [ arr vs ↦ list vs | obj vs ↦ list vs | _ ↦ [] ];
  null = null;
  of_int = num;
  of_string = text;
  object = λ m. obj (members m);
  array = λ vs. arr (elements vs);
  to_styled_string = λ d. bytes "{}";
  write = λ d. bytes "{}";
}

member-find :
    (root : Doc) (k : Str) (m : Dict Str Doc)
    → member k (members m) ≡ or_null (sample_json root) (find k m)
member-find root k [] = refl
member-find root k ((j, v) ∷ m) = ground (arith, member-find root k m)

pub sample_laws : (root : Doc) → JsonLaws (sample_json root)
sample_laws root = record {
  get-object = λ m k. ap some (member-find root k m);
  as_int-of_int = λ z. refl;
  as_string-of_string = λ s. refl;
}

-- Redis, with one hash, and the users of the database.
pub record Outside : Type 0 where
  pub texts : Dict Str Str
  pub hash : Dict Str Str
  pub users : List UserInfo

abbrev user_of : ℤ → List UserInfo → Option UserInfo
user_of uid [] = none
user_of uid (u ∷ us) = if int_eq u.uid uid then some u else user_of uid us

abbrev named : Str → List UserInfo → Option UserInfo
named name [] = none
named name (u ∷ us) = if str_eq u.name name then some u else named name us

abbrev or_empty : Option Str → Str
or_empty none = []
or_empty (some s) = s

abbrev pub sample_services : Services Outside
sample_services = record {
  self_name = bytes "ChatServer2";
  redis_get = λ k s. (find k s.texts, s);
  redis_set = λ k v s. (true, record s { texts = assign k v s.texts });
  redis_h_get = λ k f s. (or_empty (find f s.hash), s);
  redis_h_set = λ k f v s. (true, record s { hash = assign f v s.hash });
  user_by_uid = λ uid s. (user_of uid s.users, s);
  user_by_name = λ name s. (named name s.users, s);
  add_friend_apply = λ uid touid a s. (true, s);
  get_apply_list = λ uid from count s. (some [], s);
  get_friend_apply_alias = λ from to s. (none, s);
  get_friend_alias = λ self friend s. (none, s);
  auth_friend_apply = λ uid touid s. (true, s);
  add_friend = λ a b x y s. (true, s);
  get_friend_list = λ uid s. ((true, []), s);
  notify_add_friend =
      λ ip r s. (record { error = pos 0; applyuid = r.applyuid; touid = r.touid }, s);
  notify_auth_friend =
      λ ip r s. (record { error = pos 0; fromuid = r.fromuid; touid = r.touid }, s);
  notify_text_chat_msg = λ ip r s.
      (record { error = pos 0; fromuid = r.fromuid; touid = r.touid; textmsgs = r.textmsgs }, s);
}

pub sample-HashLaws : HashLaws sample_services
sample-HashLaws = record {
  h_get-h_get = λ k f k' f' s. refl;
  h_get-h_set = λ k f v s. rw (find-assign f f v s.hash, beq_refl f);
  h_get-set = λ k f k' v s ne. refl;
}

pub sample-ReadLaws : ReadLaws sample_services
sample-ReadLaws = record {
  h_get-get = λ k f j s. refl;
  h_get-user_by_uid = λ k f uid s. refl;
  h_get-get_apply_list = λ k f uid from count s. refl;
  h_get-get_friend_list = λ k f uid s. refl;
}

pub sample-TextLaws : TextLaws sample_services
sample-TextLaws = record { get-set = λ k j v s. find-assign k j v s.texts }

-- A user with a token, on a server that counts three logins.
abbrev pub sample_user : UserInfo
sample_user = record new_user_info { uid = pos 7; name = bytes "lena"; sex = pos 1 }

abbrev pub sample_outside : Outside
sample_outside = record {
  texts = (bytes "utoken_7", bytes "t0k3n") ∷ [];
  hash = (bytes "ChatServer2", bytes "3") ∷ [];
  users = sample_user ∷ [];
}

-- Two open sessions at 0 and 1, and nobody logged in.
abbrev pub sample_world : World Outside
sample_world = record {
  outside = sample_outside;
  sessions = λ p. new_session (bytes "s");
  server_sessions = (bytes "s", 0) ∷ [];
  uid_to_session = [];
  msg_que = [];
}

-- The body of a login request.
abbrev pub login_doc : Doc
login_doc = obj (cons (bytes "uid") (num (pos 7)) (cons (bytes "token") (text (bytes "t0k3n")) nil))
