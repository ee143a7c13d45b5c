-- ===== src/MySqlDao.antt =====
-- src/infra/mysql/MySqlDao.cpp, whose methods src/infra/mysql/MySqlMgr.cpp passes on: the queries,
-- each over a connection of the pool. The connector to MySQL is an argument, and so is the state `S`
-- of the server behind it.
pub mod Calls
pub mod Keeps
pub mod FriendList
pub mod Join
pub mod Start
pub mod Aliases
pub mod Friendship
mod Tests
use chat_server.Base.{
  ℕ, zero, suc, Bool, true, false, ◌||◌, List, [], ◌∷◌, ◌++◌, Option, none, some, if◌then◌else◌,
}
use chat_server.Base.Int.{ℤ, pos, is_pos, is_neg}
use chat_server.Base.Text.{Str, bytes, is_empty}
use chat_server.Domain.{UserInfo, ApplyInfo}
use chat_server.Pool.{Pool, Got, get_connection, return_connection}
use chat_server.MySqlPool.{SqlConnection}

-- `setInt` and `setString`, for the question marks of a statement in their order.
pub data Param : Type 0 where
  int : ℤ → Param
  text : Str → Param

-- `getInt` and `getString` of a row of a result, by the name of a column; `none` is an
-- `SQLException`.
pub record Row : Type 0 where
  pub get_int : Str → Option ℤ
  pub get_string : Str → Option Str

-- `prepareStatement` with `executeQuery` or `executeUpdate`: the statement and its parameters. The
-- rows, or the number of affected rows; `none` is an `SQLException`.
pub record Connector (C S : Type 0) : Type 0 where
  pub execute_query : C → Str → List Param → S → Option (List Row) × S
  pub execute_update : C → Str → List Param → S → Option ℤ × S

-- The pool of the data access object, with the server's state.
pub record Dao (C S : Type 0) : Type 0 where
  pub pool : Pool (SqlConnection C)
  pub server : S

-- A call waits for a connection, or it returns.
pub data Run (A : Type 0) : Type 0 where
  waits : Run A
  returns : A → Run A

infixl 5 ◌>>=◌
abbrev ◌>>=◌ : {A B : Type 0} → Option A → (A → Option B) → Option B
none >>= f = none
some a >>= f = f a

abbrev pub default_nick : Str → Str → Str
default_nick nick name = if is_empty nick then name else nick

-- The body of the loop of `getUserInfo`.
unfoldable pub read_user : Row → Option UserInfo
read_user row = do
  uid ← row.get_int (bytes "uid")
  pwd ← row.get_string (bytes "pwd")
  email ← row.get_string (bytes "email")
  name ← row.get_string (bytes "name")
  nick ← row.get_string (bytes "nick")
  desc ← row.get_string (bytes "desc")
  sex ← row.get_int (bytes "sex")
  icon ← row.get_string (bytes "icon")
  some (record {
    name = name;
    pwd = pwd;
    uid = uid;
    email = email;
    nick = default_nick nick name;
    desc = desc;
    sex = sex;
    icon = icon;
    back = [];
    alias_name = [];
  })

-- A null pointer is `none`, which an exception comes to as well.
abbrev pub found_user : Option (List Row) → Option UserInfo
found_user none = none
found_user (some []) = none
found_user (some (row ∷ rest)) = read_user row

-- The body of the loop of `getApplyList`.
unfoldable pub read_apply : Row → Option ApplyInfo
read_apply row = do
  from_uid ← row.get_int (bytes "from_uid")
  status ← row.get_int (bytes "status")
  name ← row.get_string (bytes "name")
  nick ← row.get_string (bytes "nick")
  sex ← row.get_int (bytes "sex")
  apply_alias ← row.get_string (bytes "alias_name")
  some (record {
    uid = from_uid;
    name = name;
    desc = [];
    icon = [];
    nick = default_nick nick name;
    sex = sex;
    status = status;
    alias_name = apply_alias;
  })

-- The loop appends to the list of the caller, where a failure leaves what came before it.
abbrev pub push_applies : List Row → List ApplyInfo → Bool × List ApplyInfo
push_applies [] list = (true, list)
push_applies (row ∷ rest) list = elim (read_apply row) [
  | none ↦ (false, list)
  | some apply ↦ push_applies rest (list ++ apply ∷ [])
]

abbrev pub found_applies : List ApplyInfo → Option (List Row) → Bool × List ApplyInfo
found_applies list none = (false, list)
found_applies list (some rows) = push_applies rows list

-- `none` is `false` with an empty `out_alias`.
abbrev pub found_alias : Option (List Row) → Option Str
found_alias none = none
found_alias (some []) = none
found_alias (some (row ∷ rest)) = row.get_string (bytes "alias_name")

-- The two columns that `getFriendList` reads of a row.
unfoldable pub friend_row : Row → Option (ℤ × Str)
friend_row row = do
  friend_id ← row.get_int (bytes "friend_id")
  row_alias ← row.get_string (bytes "alias_name")
  some (friend_id, row_alias)

unfoldable pub select_user_by_uid : Str
select_user_by_uid =
    bytes "SELECT uid, name, nick, `desc`, sex, icon, email, pwd FROM user WHERE uid = ?"

unfoldable pub select_user_by_name : Str
select_user_by_name =
    bytes "SELECT uid, name, nick, `desc`, sex, icon, email, pwd FROM user WHERE name = ?"

unfoldable pub insert_friend_apply : Str
insert_friend_apply =
    bytes "INSERT INTO friend_apply (from_uid,to_uid,alias_name) VALUES (?,?,?)"
    ++ bytes " ON DUPLICATE KEY UPDATE alias_name = VALUES(alias_name)"

unfoldable pub select_applies : Str
select_applies =
    bytes "SELECT apply.from_uid, apply.status, apply.alias_name, user.name, user.nick, user.sex "
    ++ bytes "FROM friend_apply AS apply JOIN user ON apply.from_uid = user.uid "
    ++ bytes "WHERE apply.to_uid = ? AND apply.id > ? ORDER BY apply.id ASC LIMIT ?"

unfoldable pub select_apply_alias : Str
select_apply_alias =
    bytes "SELECT alias_name FROM friend_apply WHERE from_uid = ? AND to_uid = ? LIMIT 1"

unfoldable pub select_friend_alias : Str
select_friend_alias =
    bytes "SELECT alias_name FROM friend WHERE self_id = ? AND friend_id = ? LIMIT 1"

unfoldable pub update_apply_status : Str
update_apply_status =
    bytes "UPDATE friend_apply SET status = 1 " ++ bytes "WHERE from_uid = ? AND to_uid = ?"

unfoldable pub insert_friend : Str
insert_friend =
    bytes "INSERT IGNORE INTO friend(self_id,friend_id,alias_name) " ++ bytes "values (?,?,?)"

unfoldable pub select_friends : Str
select_friends = bytes "SELECT * FROM friend WHERE self_id = ?"
