-- ===== src/MySqlDao/Join.antt =====
-- src/infra/mysql/MySqlDao.cpp: getFriendList as a join of its rows with the users.
use mathlib.Core.List.{append_assoc, append-nil}
use chat_server.Base.{
  ◌≡◌, ◌≢◌, refl, ap, ◌∙◌, Bool, true, false, List, [], ◌∷◌, ◌++◌, Option, none, some, Option-cases,
  inl, inr,
}
use chat_server.Base.Int.{ℤ}
use chat_server.Base.Text.{Str}
use chat_server.Domain.{UserInfo}
use chat_server.Pool.{get_connection, return_connection}
use chat_server.Pool.Rotate.{append-ne-nil}
use chat_server.MySqlPool.{SqlConnection}
use chat_server.MySqlDao.{
  Param, Row, Connector, Dao, Run, friend_row, found_user, select_user_by_uid, select_friends,
}
use chat_server.MySqlDao.Calls.{give_back, get_user_info, push_friends, get_friend_list}
use chat_server.MySqlDao.Keeps.{dao_of}

-- The friends of the rows up to the first that cannot be read, and whether there was none: each is
-- the user of that id with the alias of the row, and a row without a user is left out.
abbrev pub join : (ℤ → Option UserInfo) → List Row → Bool × List UserInfo
join user [] = (true, [])
join user (row ∷ rest) = elim (friend_row row) [
  | none ↦ (false, [])
  | some (friend_id, row_alias) ↦ elim (user friend_id) [
    | none ↦ join user rest
    | some base ↦ ((join user rest).0, record base { alias_name = row_alias } ∷ (join user rest).1)
  ]
]

module _ {C S : Type 0} (M : Connector C S) where
  module _ (row : Row) (rest : List Row) (list : List UserInfo) (d d' : Dao C S) where
    pub skip_row :
        (friend_id : ℤ) (row_alias : Str)
        → friend_row row ≡ some (friend_id, row_alias)
        → get_user_info M friend_id d ≡ (Run.returns none, d')
        → push_friends M (row ∷ rest) list d ≡ push_friends M rest list d'
    unfolding push_friends
    skip_row friend_id row_alias e k =
        rw (push_friends, e, ap (λ r. r.0) k) (ap (λ r. push_friends M rest list r.1) k)

    pub take_row :
        (friend_id : ℤ) (row_alias : Str) (base : UserInfo)
        → friend_row row ≡ some (friend_id, row_alias)
        → get_user_info M friend_id d ≡ (Run.returns (some base), d')
        → push_friends M (row ∷ rest) list d
          ≡ push_friends M rest (list ++ record base { alias_name = row_alias } ∷ []) d'
    unfolding push_friends
    take_row friend_id row_alias base e k =
        let merged = record base { alias_name = row_alias } in
        rw (push_friends, e, ap (λ r. r.0) k)
          (ap (λ r. push_friends M rest (list ++ merged ∷ []) r.1) k)

module _ {C S : Type 0} (M : Connector C S) (table : Str → List Param → S → List Row) where
  -- The documented behaviour of SELECT: on every connection it gives the rows that the tables hold,
  -- and changes nothing.
  abbrev pub Reads : Type 0
  Reads =
      (c : C) (sql : Str) (params : List Param) (s : S)
      → M.execute_query c sql params s ≡ (some (table sql params s), s)

  abbrev pub user_of : S → ℤ → Option UserInfo
  user_of s uid = found_user (some (table select_user_by_uid (Param.int uid ∷ []) s))

  get_user_info-Reads :
      (uid : ℤ) (c : SqlConnection C) (cs : List (SqlConnection C)) (s : S)
      → Reads
      → get_user_info M uid (dao_of (c ∷ cs) false s)
        ≡ (Run.returns (user_of s uid), dao_of (cs ++ c ∷ []) false s)
  unfolding get_user_info get_connection return_connection
  get_user_info-Reads uid c cs s h = rw (h c.con select_user_by_uid (Param.int uid ∷ []) s)

  push_friends-join :
      (rows : List Row) (list : List UserInfo) (cs : List (SqlConnection C)) (s : S)
      → Reads
      → cs ≢ []
      → let r = push_friends M rows list (dao_of cs false s) in
        let j = join (user_of s) rows in (r.0 ≡ Run.returns (j.0, list ++ j.1)) × (r.1.server ≡ s)
  unfolding push_friends
  push_friends-join [] list cs s h k = rw (append-nil list) (refl, refl)
  push_friends-join (row ∷ rest) list [] s h k = absurd (k refl)
  push_friends-join (row ∷ rest) list (c ∷ cs) s h k = elim (Option-cases (friend_row row)) [
    | inl e ↦ rw (push_friends, join, e, append-nil list) (refl, refl)
    | inr ((friend_id, row_alias), e) ↦
        let run = get_user_info-Reads friend_id c cs s h in
        let d = dao_of (c ∷ cs) false s in
        let d' = dao_of (cs ++ c ∷ []) false s in
        elim (Option-cases (user_of s friend_id)) [
          | inl u ↦
              rw (skip_row M row rest list d d' friend_id row_alias e (rw (← u) run), join, e, u)
                (push_friends-join rest list (cs ++ c ∷ []) s h (append-ne-nil cs c))
          | inr (base, u) ↦
              let merged = record base { alias_name = row_alias } in
              rw
                (
                  take_row M row rest list d d' friend_id row_alias base e (rw (← u) run),
                  join,
                  e,
                  u,
                  ← append_assoc list (merged ∷ []) (join (user_of s) rest).1,
                )
                (push_friends-join rest (list ++ merged ∷ []) (cs ++ c ∷ []) s h
                  (append-ne-nil cs c))
        ]
  ]

  give_back-result :
      {A : Type 0} (c : SqlConnection C) (r : Run A × Dao C S)
      → ((give_back c r).0 ≡ r.0) × ((give_back c r).1.server ≡ r.1.server)
  give_back-result c (Run.waits, d) = (refl, refl)
  give_back-result c (Run.returns a, d) = (refl, refl)

  -- Let SELECT read the tables, and let two connections be in an open pool. Then getFriendList
  -- appends to the caller's list the users of the friend rows, in the order of the rows and with the
  -- rows' aliases, leaves out a friend who is no user, and ends with `false` at the first row that it
  -- cannot read; the database stays as it was.
  pub get_friend_list-join :
      (uid : ℤ) (list : List UserInfo) (c e : SqlConnection C) (cs : List (SqlConnection C)) (s : S)
      → Reads
      → let r = get_friend_list M uid list (dao_of (c ∷ e ∷ cs) false s) in
        let j = join (user_of s) (table select_friends (Param.int uid ∷ []) s) in
        (r.0 ≡ Run.returns (j.0, list ++ j.1)) × (r.1.server ≡ s)
  unfolding get_friend_list get_connection
  get_friend_list-join uid list c e cs s h =
      let rows = table select_friends (Param.int uid ∷ []) s in
      let inner = push_friends M rows list (dao_of (e ∷ cs) false s) in
      let (done, kept) = push_friends-join rows list (e ∷ cs) s h (λ p. cc) in
      let (same, server) = give_back-result c inner in
      rw (h c.con select_friends (Param.int uid ∷ []) s) (same ∙ done, server ∙ kept)
