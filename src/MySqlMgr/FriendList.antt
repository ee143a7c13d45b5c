-- ===== src/MySqlMgr/FriendList.antt =====
-- src/infra/mysql/MySqlMgr.cpp: getFriendList over a pool of connections beside the friends of the
-- database's state.
use mathlib.Core.List.Perm
use chat_server.Base.{
  ◌≡◌, ◌≢◌, refl, true, false, List, [], ◌∷◌, ◌++◌, Option, none, some, Option-cases, inl, inr,
}
use chat_server.Base.Int.{ℤ}
use chat_server.Domain.{UserInfo}
use chat_server.Pool.{get_connection, return_connection}
use chat_server.Pool.Rotate.{
  SamePool, SamePool-refl, SamePool-trans, Perm-to_back, pool_of, append-ne-nil,
}
use chat_server.MySqlPool.{SqlConnection}
use chat_server.MySqlDao.{
  Param, Row, Connector, Dao, Run, friend_row, select_user_by_uid, select_friends,
}
use chat_server.MySqlDao.Calls.{
  give_back, push_friends, friends_found, get_user_info, get_friend_list,
}
use chat_server.MySqlDao.Keeps.{dao_of}
use chat_server.MySqlDao.Join.{skip_row, take_row}
use chat_server.MySqlMgr.Agrees.{Agrees, IsUniform, to_back, waits-ne-returns}
use chat_server.MySqlMgr.Answers.{user, friends, friend_list}

module _ {C S : Type 0} (M : Connector C S) (c : C) (U : IsUniform M c) where
  get_user_info-uniform :
      (uid : ℤ) (d : SqlConnection C) (ds : List (SqlConnection C)) (s : S)
      → get_user_info M uid (dao_of (d ∷ ds) false s)
        ≡ (Run.returns (user M c uid s).0, dao_of (ds ++ d ∷ []) false (user M c uid s).1)
  unfolding get_user_info get_connection return_connection
  get_user_info-uniform uid d ds s = rw (U.query d.con select_user_by_uid (Param.int uid ∷ []) s)

  Agrees-trans :
      {A B : Type 0} {reads : A → B} {r : Run A × Dao C S} {q : B × S}
      {cs ds : List (SqlConnection C)}
      → Agrees reads r q cs
      → SamePool (pool_of cs false) (pool_of ds false)
      → Agrees reads r q ds
  Agrees-trans h k = record {
    answer = h.answer;
    returns = h.returns;
    result = h.result;
    server = h.server;
    pool = SamePool-trans h.pool k;
  }

  push_friends-Agrees :
      (rows : List Row) (list : List UserInfo) (cs : List (SqlConnection C)) (s : S)
      → cs ≢ []
      → Agrees (λ r. r) (push_friends M rows list (dao_of cs false s)) (friends M c rows list s) cs
  unfolding push_friends
  push_friends-Agrees [] list cs s h = record {
    answer = (true, list);
    returns = refl;
    result = refl;
    server = refl;
    pool = SamePool-refl (pool_of cs false);
  }
  push_friends-Agrees (row ∷ rest) list [] s h = absurd (h refl)
  push_friends-Agrees (row ∷ rest) list (d ∷ ds) s h = elim (Option-cases (friend_row row)) [
    | inl e ↦
        rw (push_friends, friends, e)
          (record {
            answer = (false, list);
            returns = refl;
            result = refl;
            server = refl;
            pool = SamePool-refl (pool_of (d ∷ ds) false);
          })
    | inr ((friend_id, row_alias), e) ↦
        let run = get_user_info-uniform friend_id d ds s in
        let s' = (user M c friend_id s).1 in
        let before = dao_of (d ∷ ds) false s in
        let after = dao_of (ds ++ d ∷ []) false s' in
        elim (Option-cases (user M c friend_id s).0) [
          | inl u ↦
              rw
                (
                  skip_row M row rest list before after friend_id row_alias e (rw (← u) run),
                  friends,
                  e,
                  u,
                )
                (Agrees-trans (push_friends-Agrees rest list (ds ++ d ∷ []) s' (append-ne-nil ds d))
                  (to_back M c U d ds))
          | inr (base, u) ↦
              let merged = record base { alias_name = row_alias } in
              rw
                (
                  take_row M row rest list before after friend_id row_alias base e (rw (← u) run),
                  friends,
                  e,
                  u,
                )
                (Agrees-trans
                  (push_friends-Agrees rest (list ++ merged ∷ []) (ds ++ d ∷ []) s'
                    (append-ne-nil ds d))
                  (to_back M c U d ds))
        ]
  ]

  give_back-Agrees :
      {A B : Type 0} (reads : A → B) (r : Run A × Dao C S) (q : B × S) (d : SqlConnection C)
      (ds : List (SqlConnection C))
      → Agrees reads r q ds
      → Agrees reads (give_back d r) q (d ∷ ds)
  unfolding return_connection
  give_back-Agrees reads (Run.waits, k) q d ds h = absurd (waits-ne-returns h.returns)
  give_back-Agrees reads (Run.returns a, k) q d ds h = record {
    answer = h.answer;
    returns = h.returns;
    result = h.result;
    server = h.server;
    pool =
        rw (return_connection, h.pool.b_stop)
          (record {
            connections =
                Perm.trans (Perm.append_right (d ∷ []) h.pool.connections) (Perm-to_back d ds);
            b_stop = refl;
          });
  }

  friends_found-Agrees :
      (rows : Option (List Row)) (cs : List (SqlConnection C)) (s : S)
      → cs ≢ []
      → Agrees
          (λ r. r)
          (friends_found M [] rows (dao_of cs false s))
          (elim rows [ none ↦ ((false, []), s) | some rows ↦ friends M c rows [] s ])
          cs
  friends_found-Agrees none cs s h = record {
    answer = (false, []);
    returns = refl;
    result = refl;
    server = refl;
    pool = SamePool-refl (pool_of cs false);
  }
  friends_found-Agrees (some rows) cs s h = push_friends-Agrees rows [] cs s h

  pub get_friend_list-Agrees :
      (uid : ℤ) (d e : SqlConnection C) (cs : List (SqlConnection C)) (s : S)
      → Agrees
          (λ r. r)
          (get_friend_list M uid [] (dao_of (d ∷ e ∷ cs) false s))
          (friend_list M c uid s)
          (d ∷ e ∷ cs)
  unfolding get_friend_list get_connection
  get_friend_list-Agrees uid d e cs s =
      let (rows, s') = M.execute_query c select_friends (Param.int uid ∷ []) s in
      rw (U.query d.con select_friends (Param.int uid ∷ []) s) (
        give_back-Agrees (λ r. r) (friends_found M [] rows (dao_of (e ∷ cs) false s'))
          (elim rows [ none ↦ ((false, []), s') | some rows ↦ friends M c rows [] s' ]) d (e ∷ cs)
          (friends_found-Agrees rows (e ∷ cs) s' (λ p. cc)))
