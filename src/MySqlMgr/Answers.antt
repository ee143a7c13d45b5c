-- ===== src/MySqlMgr/Answers.antt =====
-- src/infra/mysql/MySqlMgr.cpp: the calls of the database that Services promises to the handlers,
-- met by MySqlMgr over its pool.
use chat_server.Base.{Bool, true, false, ◌||◌, List, [], ◌∷◌, ◌++◌, Option, none, some}
use chat_server.Base.Int.{ℤ, pos, is_pos}
use chat_server.Base.Text.{Str}
use chat_server.Domain.{UserInfo, ApplyInfo}
use chat_server.Services.{Services}
use chat_server.MySqlDao.{
  Param, Row, Connector, found_user, found_applies, found_alias, friend_row, select_user_by_uid,
  select_user_by_name, insert_friend_apply, select_applies, select_apply_alias, select_friend_alias,
  update_apply_status, insert_friend, select_friends,
}
use chat_server.MySqlDao.Calls.{inserted_apply, updated_apply}

abbrev pub applies_or_none : Bool × List ApplyInfo → Option (List ApplyInfo)
applies_or_none (true, list) = some list
applies_or_none (false, list) = none

-- The calls of the database on its state alone, without a pool: each statement goes over `c`. The
-- other calls are those of `E`.
module _ {C S : Type 0} (M : Connector C S) (c : C) where
  abbrev pub asked : {A : Type 0} → Str → List Param → (Option (List Row) → A) → S → A × S
  asked sql params decide s = let (rows, s') = M.execute_query c sql params s in (decide rows, s')

  abbrev pub changed : {A : Type 0} → Str → List Param → (Option ℤ → A) → S → A × S
  changed sql params decide s =
      let (row_affected, s') = M.execute_update c sql params s in (decide row_affected, s')

  abbrev pub befriend : ℤ → ℤ → Str → Str → S → Bool × S
  befriend a b x y s =
      let first =
        M.execute_update c insert_friend (Param.int a ∷ Param.int b ∷ Param.text x ∷ []) s in
      let second =
        M.execute_update c insert_friend (Param.int b ∷ Param.int a ∷ Param.text y ∷ []) first.1 in
      elim first.0 [
        | none ↦ (false, first.1)
        | some m ↦ elim second.0 [
          | none ↦ (false, second.1)
          | some n ↦ (is_pos m || is_pos n, second.1)
        ]
      ]

  abbrev pub user : ℤ → S → Option UserInfo × S
  user uid = asked select_user_by_uid (Param.int uid ∷ []) found_user

  abbrev pub friends : List Row → List UserInfo → S → (Bool × List UserInfo) × S
  friends [] list s = ((true, list), s)
  friends (row ∷ rest) list s = elim (friend_row row) [
    | none ↦ ((false, list), s)
    | some (friend_id, row_alias) ↦
        let found = user friend_id s in
        elim found.0 [
          | none ↦ friends rest list found.1
          | some base ↦ friends rest (list ++ record base { alias_name = row_alias } ∷ []) found.1
        ]
  ]

  abbrev pub friend_list : ℤ → S → (Bool × List UserInfo) × S
  friend_list uid s =
      let (rows, s') = M.execute_query c select_friends (Param.int uid ∷ []) s in
      elim rows [ none ↦ ((false, []), s') | some rows ↦ friends rows [] s' ]

  abbrev pub with_mysql : Services S → Services S
  with_mysql E = record E {
    user_by_uid = user;
    user_by_name = λ name. asked select_user_by_name (Param.text name ∷ []) found_user;
    add_friend_apply = λ uid touid name.
        changed insert_friend_apply (Param.int uid ∷ Param.int touid ∷ Param.text name ∷ [])
          inserted_apply;
    get_apply_list = λ uid begin limit.
        asked select_applies (Param.int uid ∷ Param.int (pos begin) ∷ Param.int (pos limit) ∷ [])
          (λ rows. applies_or_none (found_applies [] rows));
    get_friend_apply_alias =
        λ uid touid. asked select_apply_alias (Param.int uid ∷ Param.int touid ∷ []) found_alias;
    get_friend_alias =
        λ uid touid. asked select_friend_alias (Param.int uid ∷ Param.int touid ∷ []) found_alias;
    auth_friend_apply = λ uid touid.
        changed update_apply_status (Param.int uid ∷ Param.int touid ∷ []) updated_apply;
    add_friend = befriend;
    get_friend_list = friend_list;
  }
