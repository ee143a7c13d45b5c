-- ===== src/MySqlMgr/Refines.antt =====
-- src/infra/mysql/MySqlMgr.cpp: its calls over a pool of connections give what Services promises to
-- the handlers.
use chat_server.Base.{false, List, [], ◌∷◌, none, ℕ}
use chat_server.Base.Int.{ℤ, pos}
use chat_server.Base.Text.{Str}
use chat_server.Services.{Services}
use chat_server.MySqlPool.{SqlConnection}
use chat_server.MySqlDao.{
  Param, Connector, found_user, found_applies, found_alias, select_user_by_uid, select_user_by_name,
  insert_friend_apply, select_applies, select_apply_alias, select_friend_alias, update_apply_status,
}
use chat_server.MySqlDao.Calls.{
  inserted_apply, updated_apply, get_user_info, get_user_info_by_name, add_friend_apply,
  get_apply_list, get_friend_apply_alias, get_friend_alias, auth_friend_apply,
}
use chat_server.MySqlDao.Keeps.{dao_of}
use chat_server.MySqlMgr.Agrees.{Agrees, IsUniform, asked-Agrees, changed-Agrees, add_friend-Agrees}
use chat_server.MySqlMgr.FriendList.{get_friend_list-Agrees}
use chat_server.MySqlMgr.{mysql_mgr}
use chat_server.MySqlMgr.Answers.{applies_or_none, with_mysql}

module _ {C S : Type 0} (M : Connector C S) (c : C) (U : IsUniform M c) where
  -- Let all connections lead to one database, and let two of them be in an open pool. Then each call
  -- of MySqlMgr returns what Services promises to the handlers and leaves the database so, for the
  -- calls of the database on its state alone, and the pool has the same connections afterwards.
  pub mysql_mgr-Agrees :
      (E : Services S) (uid touid : ℤ) (begin limit : ℕ) (name x y : Str) (d e : SqlConnection C)
      (cs : List (SqlConnection C)) (s : S)
      → let P = mysql_mgr M in
        let F = with_mysql M c E in
        let D = dao_of (d ∷ e ∷ cs) false s in
        let all = d ∷ e ∷ cs in
        Agrees (λ r. r) (P.get_user_info uid D) (F.user_by_uid uid s) all
        × Agrees (λ r. r) (P.get_user_info_by_name name D) (F.user_by_name name s) all
        × Agrees (λ r. r) (P.add_friend_apply uid touid x D) (F.add_friend_apply uid touid x s) all
        × Agrees applies_or_none
            (P.get_apply_list uid [] (pos begin) (pos limit) D)
            (F.get_apply_list uid begin limit s)
            all
        × Agrees
            (λ r. r)
            (P.get_friend_apply_alias uid touid D)
            (F.get_friend_apply_alias uid touid s)
            all
        × Agrees (λ r. r) (P.get_friend_alias uid touid D) (F.get_friend_alias uid touid s) all
        × Agrees (λ r. r) (P.auth_friend_apply uid touid D) (F.auth_friend_apply uid touid s) all
        × Agrees (λ r. r) (P.add_friend uid touid x y D) (F.add_friend uid touid x y s) all
        × Agrees (λ r. r) (P.get_friend_list uid [] D) (F.get_friend_list uid s) all
  unfolding get_user_info get_user_info_by_name add_friend_apply get_apply_list
      get_friend_apply_alias get_friend_alias auth_friend_apply
  mysql_mgr-Agrees E uid touid begin limit name x y d e cs s =
      let pair = Param.int uid ∷ Param.int touid ∷ [] in
      let page = Param.int uid ∷ Param.int (pos begin) ∷ Param.int (pos limit) ∷ [] in
      let rest = e ∷ cs in
      (
        asked-Agrees M c U none select_user_by_uid (Param.int uid ∷ []) found_user (λ r. r) d rest
            s,
        asked-Agrees M c U none select_user_by_name (Param.text name ∷ []) found_user (λ r. r) d
            rest s,
        changed-Agrees M c U false insert_friend_apply
            (Param.int uid ∷ Param.int touid ∷ Param.text x ∷ []) inserted_apply d rest s,
        asked-Agrees M c U (false, []) select_applies page (found_applies []) applies_or_none d rest
            s,
        asked-Agrees M c U none select_apply_alias pair found_alias (λ r. r) d rest s,
        asked-Agrees M c U none select_friend_alias pair found_alias (λ r. r) d rest s,
        changed-Agrees M c U false update_apply_status pair updated_apply d rest s,
        add_friend-Agrees M c U uid touid x y d rest s,
        get_friend_list-Agrees M c U uid d e cs s,
      )
