-- ===== src/MySqlDao/Keeps.antt =====
-- src/infra/mysql/MySqlDao.cpp: the connections of the pool, and when a call waits for one.
use chat_server.Base.{
  ◌≡◌, ◌≢◌, refl, Bool, true, false, ◌||◌, List, [], ◌∷◌, Option, none, some, Option-cases, inl,
  inr,
}
use chat_server.Base.Int.{ℤ, is_pos}
use chat_server.Base.Text.{Str}
use chat_server.Domain.{ApplyInfo}
use chat_server.Pool.{get_connection, return_connection}
use chat_server.Pool.Rotate.{rotated, IsReady, pool_of}
use chat_server.MySqlPool.{SqlConnection}
use chat_server.MySqlDao.{
  Param, Row, Connector, Dao, Run, found_user, found_applies, found_alias, select_user_by_uid,
  select_user_by_name, insert_friend_apply, select_applies, select_apply_alias, select_friend_alias,
  update_apply_status,
}
use chat_server.MySqlDao.Calls.{
  inserted_apply, updated_apply, with_connection, query, update, insert_one, insert_both,
  get_user_info, get_user_info_by_name, add_friend_apply, get_apply_list, get_friend_apply_alias,
  get_friend_alias, auth_friend_apply, add_friend,
}

abbrev pub dao_of : {C S : Type 0} → List (SqlConnection C) → Bool → S → Dao C S
dao_of cs b s = record { pool = pool_of cs b; server = s }

module _ {A C S : Type 0} where
  -- A body that returns and leaves the pool alone.
  pub record IsQuiet (body : SqlConnection C → Dao C S → Run A × Dao C S) : Type 0 where
    pub result : SqlConnection C → Dao C S → A
    pub server : SqlConnection C → Dao C S → S
    pub runs :
        (c : SqlConnection C) (d : Dao C S)
        → body c d ≡ (Run.returns (result c d), record d { server = server c d })

  -- A call that uses one connection once: the connection is at the back of the pool afterwards, and
  -- the call waits only for an open pool without any.
  pub record IsOneUse (call : Dao C S → Run A × Dao C S) : Type 0 where
    pub pool : (d : Dao C S) → (call d).1.pool ≡ rotated d.pool
    pub returns : (d : Dao C S) → IsReady d.pool → (call d).0 ≢ Run.waits

  module _ (failed : A) (body : SqlConnection C → Dao C S → Run A × Dao C S)
      (q : IsQuiet body) where
    with_connection-pool :
        (cs : List (SqlConnection C)) (b : Bool) (s : S)
        → (with_connection failed body (dao_of cs b s)).1.pool ≡ rotated (pool_of cs b)
    unfolding get_connection return_connection
    with_connection-pool cs true s = refl
    with_connection-pool [] false s = refl
    with_connection-pool (c ∷ cs) false s = rw (q.runs c (dao_of cs false s)) refl

    with_connection-returns :
        (cs : List (SqlConnection C)) (b : Bool) (s : S)
        → IsReady (pool_of cs b)
        → (with_connection failed body (dao_of cs b s)).0 ≢ Run.waits
    unfolding get_connection
    with_connection-returns cs true s h = λ e. cc
    with_connection-returns [] false s h = absurd (h refl refl)
    with_connection-returns (c ∷ cs) false s h = rw (q.runs c (dao_of cs false s)) (λ e. cc)

    pub with_connection-IsOneUse : IsOneUse (with_connection failed body)
    with_connection-IsOneUse = record {
      pool = λ d. with_connection-pool d.pool.connections d.pool.b_stop d.server;
      returns = λ d. with_connection-returns d.pool.connections d.pool.b_stop d.server;
    }

module _ {C S : Type 0} (M : Connector C S) where
  query-IsOneUse :
      {A : Type 0} (failed : A) (sql : Str) (params : List Param) (decide : Option (List Row) → A)
      → IsOneUse (with_connection failed (query M sql params decide))
  query-IsOneUse failed sql params decide =
      with_connection-IsOneUse failed (query M sql params decide) (record {
        result = λ c d. decide (M.execute_query c.con sql params d.server).0;
        server = λ c d. (M.execute_query c.con sql params d.server).1;
        runs = λ c d. refl;
      })

  update-IsOneUse :
      {A : Type 0} (failed : A) (sql : Str) (params : List Param) (decide : Option ℤ → A)
      → IsOneUse (with_connection failed (update M sql params decide))
  update-IsOneUse failed sql params decide =
      with_connection-IsOneUse failed (update M sql params decide) (record {
        result = λ c d. decide (M.execute_update c.con sql params d.server).0;
        server = λ c d. (M.execute_update c.con sql params d.server).1;
        runs = λ c d. refl;
      })

  abbrev both_result : Option ℤ → Option ℤ → Bool
  both_result none second = false
  both_result (some m) none = false
  both_result (some m) (some n) = is_pos m || is_pos n

  insert_both-IsQuiet : (a b : ℤ) (x y : Str) → IsQuiet (insert_both M a b x y)
  insert_both-IsQuiet a b x y = record {
    result = λ c d.
        let first = insert_one M a b x c d.server in
        both_result first.0 (insert_one M b a y c first.1).0;
    server = λ c d.
        let first = insert_one M a b x c d.server in
        elim first.0 [ none ↦ first.1 | some m ↦ (insert_one M b a y c first.1).1 ];
    runs = λ c d.
        let first = insert_one M a b x c d.server in
        let second = insert_one M b a y c first.1 in
        elim (Option-cases first.0) [
          | inl h ↦ rw (insert_both, h)
          | inr (m, h) ↦ elim (Option-cases second.0) [
            | inl k ↦ rw (insert_both, h, k)
            | inr (n, k) ↦ rw (insert_both, h, k)
          ]
        ];
  }

  pub get_user_info-IsOneUse : (uid : ℤ) → IsOneUse (get_user_info M uid)
  unfolding get_user_info
  get_user_info-IsOneUse uid =
      query-IsOneUse none select_user_by_uid (Param.int uid ∷ []) found_user

  -- Each of these calls, with whatever result and exceptions of the database, leaves the pool with
  -- the connection that it used at the back, and returns unless the pool is open and empty.
  pub calls-IsOneUse :
      (uid touid begin limit : ℤ) (name alias_name for_applicant : Str) (list : List ApplyInfo)
      → IsOneUse (get_user_info M uid)
        × IsOneUse (get_user_info_by_name M name)
        × IsOneUse (add_friend_apply M uid touid alias_name)
        × IsOneUse (get_apply_list M touid list begin limit)
        × IsOneUse (get_friend_apply_alias M uid touid)
        × IsOneUse (get_friend_alias M uid touid)
        × IsOneUse (auth_friend_apply M uid touid)
        × IsOneUse (add_friend M uid touid alias_name for_applicant)
  unfolding get_user_info get_user_info_by_name add_friend_apply get_apply_list
      get_friend_apply_alias get_friend_alias auth_friend_apply add_friend
  calls-IsOneUse uid touid begin limit name alias_name for_applicant list = (
    get_user_info-IsOneUse uid,
    query-IsOneUse none select_user_by_name (Param.text name ∷ []) found_user,
    update-IsOneUse false insert_friend_apply
        (Param.int uid ∷ Param.int touid ∷ Param.text alias_name ∷ []) inserted_apply,
    query-IsOneUse (false, list) select_applies
        (Param.int touid ∷ Param.int begin ∷ Param.int limit ∷ []) (found_applies list),
    query-IsOneUse none select_apply_alias (Param.int uid ∷ Param.int touid ∷ []) found_alias,
    query-IsOneUse none select_friend_alias (Param.int uid ∷ Param.int touid ∷ []) found_alias,
    update-IsOneUse false update_apply_status (Param.int uid ∷ Param.int touid ∷ []) updated_apply,
    with_connection-IsOneUse false (insert_both M uid touid alias_name for_applicant)
        (insert_both-IsQuiet uid touid alias_name for_applicant),
  )
