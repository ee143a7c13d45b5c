-- ===== src/MySqlDao/FriendList.antt =====
-- src/infra/mysql/MySqlDao.cpp: getFriendList, which looks each friend up by a second connection.
use mathlib.Core.List.Perm
use chat_server.Base.{
  ◌≡◌, ◌≢◌, refl, false, List, [], ◌∷◌, ◌++◌, Option, none, some, Option-cases, ◌⊎◌, inl, inr,
}
use chat_server.Base.Int.{ℤ}
use chat_server.Base.Text.{Str}
use chat_server.Domain.{UserInfo}
use chat_server.Pool.{Pool, get_connection, return_connection}
use chat_server.Pool.Rotate.{
  IsReady, rotated-IsReady, SamePool, rotated-SamePool, SamePool-trans, SamePool-refl, pool_of,
  Perm-to_back,
}
use chat_server.MySqlPool.{SqlConnection}
use chat_server.MySqlDao.{Param, Row, Connector, Dao, Run, friend_row, select_friends}
use chat_server.MySqlDao.Calls.{
  give_back, friends_found, get_user_info, push_friends, get_friend_list,
}
use chat_server.MySqlDao.Keeps.{dao_of, get_user_info-IsOneUse}

Run-cases : {A : Type 0} (r : Run A) → (r ≡ Run.waits) ⊎ ((a : A) × (r ≡ Run.returns a))
Run-cases Run.waits = inl refl
Run-cases (Run.returns a) = inr (a, refl)

-- A call has returned, and the pool has the connections of another in some order.
pub record IsDone {A C S : Type 0} (r : Run A × Dao C S) (p : Pool (SqlConnection C)) : Type 0 where
  pub returns : r.0 ≢ Run.waits
  pub pool : SamePool r.1.pool p

module _ {C S : Type 0} (M : Connector C S) where
  IsDone-trans :
      {A : Type 0} {r : Run A × Dao C S} {p q : Pool (SqlConnection C)}
      → IsDone r p
      → SamePool p q
      → IsDone r q
  IsDone-trans h k = record { returns = h.returns; pool = SamePool-trans h.pool k }

  push_friends-IsDone :
      (rows : List Row) (list : List UserInfo) (d : Dao C S)
      → IsReady d.pool
      → IsDone (push_friends M rows list d) d.pool
  unfolding push_friends
  push_friends-IsDone [] list d h = record { returns = λ e. cc; pool = SamePool-refl d.pool }
  push_friends-IsDone (row ∷ rest) list d h = elim (Option-cases (friend_row row)) [
    | inl e ↦ rw (push_friends, e) (record { returns = λ e. cc; pool = SamePool-refl d.pool })
    | inr ((friend_id, row_alias), e) ↦
        let found = get_user_info M friend_id d in
        let once = get_user_info-IsOneUse M friend_id in
        let ready : IsReady found.1.pool = rw (once.pool d) (rotated-IsReady d.pool h) in
        let same : SamePool found.1.pool d.pool = rw (once.pool d) (rotated-SamePool d.pool) in
        elim (Run-cases found.0) [
          | inl w ↦ absurd (once.returns d h w)
          | inr (none, w) ↦
              rw (push_friends, e, w)
                (IsDone-trans (push_friends-IsDone rest list found.1 ready) same)
          | inr (some base, w) ↦
              rw (push_friends, e, w)
                (IsDone-trans
                  (push_friends-IsDone rest (list ++ record base { alias_name = row_alias } ∷ [])
                    found.1 ready)
                  same)
        ]
  ]

  friends_found-IsDone :
      (list : List UserInfo) (rows : Option (List Row)) (d : Dao C S)
      → IsReady d.pool
      → IsDone (friends_found M list rows d) d.pool
  friends_found-IsDone list none d h = record { returns = λ e. cc; pool = SamePool-refl d.pool }
  friends_found-IsDone list (some rows) d h = push_friends-IsDone rows list d h

  give_back-IsDone :
      {A : Type 0} (c : SqlConnection C) (cs : List (SqlConnection C)) (r : Run A × Dao C S)
      → IsDone r (pool_of cs false)
      → IsDone (give_back c r) (pool_of (c ∷ cs) false)
  unfolding return_connection
  give_back-IsDone c cs (Run.waits, d) h = absurd (h.returns refl)
  give_back-IsDone c cs (Run.returns a, d) h = record {
    returns = λ e. cc;
    pool =
        rw (return_connection, h.pool.b_stop)
          (record {
            connections =
                Perm.trans (Perm.append_right (c ∷ []) h.pool.connections) (Perm-to_back c cs);
            b_stop = refl;
          });
  }

  -- With two connections in an open pool, getFriendList returns, whatever the database answers and
  -- however many friends it has, and the pool has the same connections afterwards.
  pub get_friend_list-IsDone :
      (uid : ℤ) (list : List UserInfo) (c e : SqlConnection C) (cs : List (SqlConnection C)) (s : S)
      → IsDone
          (get_friend_list M uid list (dao_of (c ∷ e ∷ cs) false s))
          (pool_of (c ∷ e ∷ cs) false)
  unfolding get_friend_list get_connection
  get_friend_list-IsDone uid list c e cs s =
      let answer = M.execute_query c.con select_friends (Param.int uid ∷ []) s in
      give_back-IsDone c (e ∷ cs) (friends_found M list answer.0 (dao_of (e ∷ cs) false answer.1))
        (friends_found-IsDone list answer.0 (dao_of (e ∷ cs) false answer.1) (λ p q. cc))

  -- With one connection alone in an open pool, getFriendList of a user with a friend takes it and
  -- then waits for another, which it does not give back; so does every later call of getUserInfo.
  pub get_friend_list-alone :
      (uid : ℤ) (list : List UserInfo) (c : SqlConnection C) (s : S) (row : Row) (rows : List Row)
      (friend : ℤ × Str)
      → (M.execute_query c.con select_friends (Param.int uid ∷ []) s).0 ≡ some (row ∷ rows)
      → friend_row row ≡ some friend
      → let after = get_friend_list M uid list (dao_of (c ∷ []) false s) in
        (after.0 ≡ Run.waits) × ((other : ℤ) → (get_user_info M other after.1).0 ≡ Run.waits)
  unfolding get_friend_list get_connection push_friends get_user_info
  get_friend_list-alone uid list c s row rows friend h k =
      rw (get_friend_list, friends_found, h, push_friends, k, get_user_info, get_connection)
        (refl, λ other. refl)
