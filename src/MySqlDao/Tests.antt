-- ===== src/MySqlDao/Tests.antt =====
-- Runs of the queries against small tables.
use chat_server.Base.{
  ℕ, ◌≡◌, refl, ap, true, false, [], ◌∷◌, List, Option, none, some, if◌then◌else◌, is_some,
}
use chat_server.Base.Int.{ℤ, pos, int_eq}
use chat_server.Base.Text.{Str, bytes, str_eq}
use chat_server.Pool.Rotate.{pool_of}
use chat_server.Pool.{get_connection, return_connection}
use chat_server.MySqlPool.{SqlConnection}
use chat_server.MySqlDao.{
  Param, Row, Connector, Dao, Run, friend_row, read_user, select_friends, select_user_by_uid,
}
use chat_server.MySqlDao.Calls.{
  get_user_info, get_user_info_by_name, add_friend_apply, get_apply_list, get_friend_apply_alias,
  get_friend_alias, auth_friend_apply, add_friend, push_friends, get_friend_list,
}
use chat_server.MySqlDao.Keeps.{dao_of, IsOneUse, calls-IsOneUse}
use chat_server.MySqlDao.FriendList.{IsDone, get_friend_list-IsDone, get_friend_list-alone}
use chat_server.MySqlPool.Start.{mysql_pool}
use chat_server.MySqlDao.Start.{mysql_pool-down}
use chat_server.MySqlDao.Join.{Reads, join, user_of, get_friend_list-join}
use chat_server.MySqlDao.Aliases.{alias_rows, same_pair}
use chat_server.MySqlDao.Friendship.{FriendLaws, kept, add_friend-alias}

abbrev con : ℕ → SqlConnection ℕ
con n = record { con = n; last_oper_time = 0 }

-- A user of the name `bo`, whose nick is empty, and two rows of `friend`.
abbrev user_row : Row
user_row = record {
  get_int = λ column. some (if str_eq column (bytes "uid") then pos 2 else pos 0);
  get_string = λ column. some (if str_eq column (bytes "name") then bytes "bo" else []);
}

abbrev row_of : ℕ → Str → Row
row_of friend_id row_alias = record {
  get_int = λ column. some (pos friend_id);
  get_string = λ column. some row_alias;
}

-- User 1 has the friends 2 and 9, and 9 is no user.
abbrev sample_table : Str → List Param → ℕ → List Row
sample_table sql (Param.int uid ∷ []) s =
    if str_eq sql select_friends
    then row_of 2 (bytes "b") ∷ row_of 9 (bytes "c") ∷ []
    else if int_eq uid (pos 2)
    then user_row ∷ []
    else []
sample_table sql params s = []

abbrev sample_tables : Connector ℕ ℕ
sample_tables = record {
  execute_query = λ c sql params s. (some (sample_table sql params s), s);
  execute_update = λ c sql params s. (none, s);
}

abbrev sample_Reads : Reads sample_tables sample_table
sample_Reads c sql params s = refl

friend_list_run :
    (get_friend_list sample_tables (pos 1) [] (dao_of (con 5 ∷ con 6 ∷ []) false 0)).0
    ≡ Run.returns (
      true,
      record {
        name = bytes "bo";
        pwd = [];
        uid = pos 2;
        email = [];
        nick = bytes "bo";
        desc = [];
        sex = pos 0;
        icon = [];
        back = [];
        alias_name = bytes "b";
      }
          ∷ [],
    )
unfolding get_friend_list push_friends get_user_info get_connection return_connection friend_row
    read_user select_friends select_user_by_uid
friend_list_run = refl

calls-IsOneUse_example :
    IsOneUse (get_user_info sample_tables (pos 2))
    × IsOneUse (get_user_info_by_name sample_tables (bytes "bo"))
    × IsOneUse (add_friend_apply sample_tables (pos 2) (pos 1) (bytes "b"))
    × IsOneUse (get_apply_list sample_tables (pos 1) [] (pos 0) (pos 10))
    × IsOneUse (get_friend_apply_alias sample_tables (pos 2) (pos 1))
    × IsOneUse (get_friend_alias sample_tables (pos 2) (pos 1))
    × IsOneUse (auth_friend_apply sample_tables (pos 2) (pos 1))
    × IsOneUse (add_friend sample_tables (pos 2) (pos 1) (bytes "b") (bytes "c"))
calls-IsOneUse_example =
    calls-IsOneUse sample_tables (pos 2) (pos 1) (pos 0) (pos 10) (bytes "bo") (bytes "b")
      (bytes "c") []

get_friend_list-IsDone_example :
    IsDone
      (get_friend_list sample_tables (pos 1) [] (dao_of (con 5 ∷ con 6 ∷ []) false 0))
      (pool_of (con 5 ∷ con 6 ∷ []) false)
get_friend_list-IsDone_example =
    get_friend_list-IsDone sample_tables (pos 1) [] (con 5) (con 6) [] 0

get_friend_list-alone_example :
    let after = get_friend_list sample_tables (pos 1) [] (dao_of (con 5 ∷ []) false 0) in
    (after.0 ≡ Run.waits)
    × ((other : ℤ) → (get_user_info sample_tables other after.1).0 ≡ Run.waits)
unfolding friend_row select_friends
get_friend_list-alone_example =
    get_friend_list-alone sample_tables (pos 1) [] (con 5) 0 (row_of 2 (bytes "b"))
      (row_of 9 (bytes "c") ∷ []) (pos 2, bytes "b") refl refl

get_friend_list-join_example :
    let r = get_friend_list sample_tables (pos 1) [] (dao_of (con 5 ∷ con 6 ∷ []) false 0) in
    let j =
      join
        (user_of sample_tables sample_table 0)
        (sample_table select_friends (Param.int (pos 1) ∷ []) 0) in
    (r.0 ≡ Run.returns (j.0, j.1)) × (r.1.server ≡ 0)
get_friend_list-join_example =
    get_friend_list-join sample_tables sample_table (pos 1) [] (con 5) (con 6) [] 0 sample_Reads

-- A table of aliases, of which the connector serves one.
abbrev AliasTable : Type 0
AliasTable = ℤ → ℤ → Option Str

abbrev select_alias : List Param → AliasTable → Option (List Row) × AliasTable
select_alias (Param.int a ∷ Param.int b ∷ []) s = (some (alias_rows (s a b)), s)
select_alias params s = (none, s)

abbrev insert_ignore : List Param → AliasTable → Option ℤ × AliasTable
insert_ignore (Param.int a ∷ Param.int b ∷ Param.text x ∷ []) s = (
  some (if is_some (s a b) then pos 0 else pos 1),
  λ p q. if same_pair a b p q then some (kept (s a b) x) else s p q,
)
insert_ignore params s = (none, s)

abbrev friend_table : Connector ℕ AliasTable
friend_table = record {
  execute_query = λ c sql. select_alias;
  execute_update = λ c sql. insert_ignore;
}

abbrev friend_table-FriendLaws : FriendLaws friend_table (λ s. s)
friend_table-FriendLaws = record {
  select = λ c a b s. refl;
  insert = λ c a b x s. refl;
  inserted = λ c a b x s p q. refl;
}

abbrev no_alias : AliasTable
no_alias p q = none

add_friend-alias_example :
    let r =
      add_friend friend_table
        (pos 1)
        (pos 2)
        (bytes "b")
        (bytes "a")
        (dao_of (con 5 ∷ []) false no_alias) in
    (r.0 ≡ Run.returns true)
    × ((get_friend_alias friend_table (pos 2) (pos 1) r.1).0 ≡ Run.returns (some (bytes "a")))
add_friend-alias_example =
    add_friend-alias friend_table (λ s. s) friend_table-FriendLaws (pos 1) (pos 2) (bytes "b")
      (bytes "a") (con 5) [] no_alias (pos 2) (pos 1)

abbrev down : Dao ℕ ℕ
down = record { pool = (mysql_pool 5 (λ i. none)).pool; server = 0 }

-- A database that is down at the start.
start_run : (get_user_info sample_tables (pos 2) down).0 ≡ Run.waits
start_run =
    ap (λ r. r.0)
      (mysql_pool-down sample_tables 4 (λ i. none) 0 (pos 2) (pos 1) (pos 0) (pos 10) [] [] []
        refl).1
