-- ===== src/MySqlDao/Calls.antt =====
-- src/infra/mysql/MySqlDao.cpp: the methods, as MySqlMgr.cpp passes them on.
use chat_server.Base.{Bool, true, false, not, ◌||◌, List, [], ◌∷◌, ◌++◌, Option, none, some}
use chat_server.Base.Int.{ℤ, is_pos, is_neg}
use chat_server.Base.Text.{Str}
use chat_server.Domain.{UserInfo, ApplyInfo}
use chat_server.Pool.{Got, get_connection, return_connection}
use chat_server.MySqlPool.{SqlConnection}
use chat_server.MySqlDao.{
  Param, Row, Connector, Dao, Run, found_user, found_applies, found_alias, friend_row,
  select_user_by_uid, select_user_by_name, insert_friend_apply, select_applies, select_apply_alias,
  select_friend_alias, update_apply_status, insert_friend, select_friends,
}

-- The `Defer` of each method: whatever it returns, and after any exception, its connection goes
-- back. A body that waits does not come to it.
abbrev pub give_back : {A C S : Type 0} → SqlConnection C → Run A × Dao C S → Run A × Dao C S
give_back c (Run.waits, d) = (Run.waits, d)
give_back c (Run.returns a, d) = (Run.returns a, record d { pool = return_connection c d.pool })

-- How each method starts: by `getConnection`, and with a result of its own for a null pointer.
abbrev pub with_connection :
    {A C S : Type 0} → A → (SqlConnection C → Dao C S → Run A × Dao C S) → Dao C S → Run A × Dao C S
with_connection failed body d = elim (get_connection d.pool).0 [
  | Got.waits ↦ (Run.waits, d)
  | Got.nullptr ↦ (Run.returns failed, d)
  | Got.got c ↦ give_back c (body c (record d { pool = (get_connection d.pool).1 }))
]

-- Whether a number of affected rows, or an exception, is a success.
abbrev pub inserted_apply : Option ℤ → Bool
inserted_apply none = false
inserted_apply (some row_affected) = not (is_neg row_affected)

abbrev pub updated_apply : Option ℤ → Bool
updated_apply none = false
updated_apply (some row_affected) = is_pos row_affected

module _ {C S : Type 0} (M : Connector C S) where
  abbrev pub query :
      {A : Type 0}
      → Str
      → List Param
      → (Option (List Row) → A)
      → SqlConnection C
      → Dao C S
      → Run A × Dao C S
  query sql params decide c d =
      let (rows, server) = M.execute_query c.con sql params d.server in
      (Run.returns (decide rows), record d { server = server })

  abbrev pub update :
      {A : Type 0} → Str → List Param → (Option ℤ → A) → SqlConnection C → Dao C S → Run A × Dao C S
  update sql params decide c d =
      let (row_affected, server) = M.execute_update c.con sql params d.server in
      (Run.returns (decide row_affected), record d { server = server })

  unfoldable pub get_user_info : ℤ → Dao C S → Run (Option UserInfo) × Dao C S
  get_user_info uid =
      with_connection none (query select_user_by_uid (Param.int uid ∷ []) found_user)

  unfoldable pub get_user_info_by_name : Str → Dao C S → Run (Option UserInfo) × Dao C S
  get_user_info_by_name name =
      with_connection none (query select_user_by_name (Param.text name ∷ []) found_user)

  unfoldable pub add_friend_apply : ℤ → ℤ → Str → Dao C S → Run Bool × Dao C S
  add_friend_apply uid touid apply_alias_name = with_connection false (
      update insert_friend_apply
        (Param.int uid ∷ Param.int touid ∷ Param.text apply_alias_name ∷ []) inserted_apply)

  -- The result, and the list of the caller after it.
  unfoldable pub get_apply_list :
      ℤ → List ApplyInfo → ℤ → ℤ → Dao C S → Run (Bool × List ApplyInfo) × Dao C S
  get_apply_list touid list begin limit =
      with_connection (false, list)
        (query select_applies (Param.int touid ∷ Param.int begin ∷ Param.int limit ∷ [])
          (found_applies list))

  unfoldable pub get_friend_apply_alias : ℤ → ℤ → Dao C S → Run (Option Str) × Dao C S
  get_friend_apply_alias from_uid to_uid =
      with_connection none
        (query select_apply_alias (Param.int from_uid ∷ Param.int to_uid ∷ []) found_alias)

  unfoldable pub get_friend_alias : ℤ → ℤ → Dao C S → Run (Option Str) × Dao C S
  get_friend_alias self_id friend_id =
      with_connection none
        (query select_friend_alias (Param.int self_id ∷ Param.int friend_id ∷ []) found_alias)

  unfoldable pub auth_friend_apply : ℤ → ℤ → Dao C S → Run Bool × Dao C S
  auth_friend_apply uid touid =
      with_connection false
        (update update_apply_status (Param.int uid ∷ Param.int touid ∷ []) updated_apply)

  -- One `INSERT IGNORE` into `friend`.
  abbrev pub insert_one : ℤ → ℤ → Str → SqlConnection C → S → Option ℤ × S
  insert_one self_id friend_id alias_name c =
      M.execute_update c.con insert_friend
        (Param.int self_id ∷ Param.int friend_id ∷ Param.text alias_name ∷ [])

  -- Two statements, each committed for itself.
  abbrev pub insert_both : ℤ → ℤ → Str → Str → SqlConnection C → Dao C S → Run Bool × Dao C S
  insert_both applicant_uid accepter_uid for_accepter for_applicant c d =
      let first = insert_one applicant_uid accepter_uid for_accepter c d.server in
      let second = insert_one accepter_uid applicant_uid for_applicant c first.1 in
      elim first.0 [
        | none ↦ (Run.returns false, record d { server = first.1 })
        | some row_affected ↦ elim second.0 [
          | none ↦ (Run.returns false, record d { server = second.1 })
          | some row_affected2 ↦ (
            Run.returns (is_pos row_affected || is_pos row_affected2),
            record d { server = second.1 },
          )
        ]
      ]

  unfoldable pub add_friend : ℤ → ℤ → Str → Str → Dao C S → Run Bool × Dao C S
  add_friend applicant_uid accepter_uid for_accepter for_applicant =
      with_connection false (insert_both applicant_uid accepter_uid for_accepter for_applicant)

  -- The loop of `getFriendList`, which calls `getUserInfo` while it holds its own connection.
  unfoldable pub push_friends :
      List Row → List UserInfo → Dao C S → Run (Bool × List UserInfo) × Dao C S
  push_friends [] list d = (Run.returns (true, list), d)
  push_friends (row ∷ rest) list d = elim (friend_row row) [
    | none ↦ (Run.returns (false, list), d)
    | some (friend_id, row_alias) ↦
        let found = get_user_info friend_id d in
        elim found.0 [
          | Run.waits ↦ (Run.waits, found.1)
          | Run.returns none ↦ push_friends rest list found.1
          | Run.returns (some base) ↦
              push_friends rest (list ++ record base { alias_name = row_alias } ∷ []) found.1
        ]
  ]

  abbrev pub friends_found :
      List UserInfo → Option (List Row) → Dao C S → Run (Bool × List UserInfo) × Dao C S
  friends_found list none d = (Run.returns (false, list), d)
  friends_found list (some rows) d = push_friends rows list d

  unfoldable pub get_friend_list :
      ℤ → List UserInfo → Dao C S → Run (Bool × List UserInfo) × Dao C S
  get_friend_list uid list =
      with_connection (false, list)
        λ c d.
          let (rows, server) = M.execute_query c.con select_friends (Param.int uid ∷ []) d.server in
          friends_found list rows (record d { server = server })
