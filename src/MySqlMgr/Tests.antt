-- ===== src/MySqlMgr/Tests.antt =====
-- The calls of MySqlMgr beside those that the handlers make, on a database of one user.
use chat_server.Base.{ℕ, refl, false, [], ◌∷◌, some}
use chat_server.Base.Int.{pos}
use chat_server.Base.Text.{bytes}
use chat_server.MySqlPool.{SqlConnection}
use chat_server.MySqlDao.{Row, Connector}
use chat_server.MySqlDao.Keeps.{dao_of}
use chat_server.MySqlMgr.{mysql_mgr}
use chat_server.MySqlMgr.Answers.{applies_or_none, with_mysql}
use chat_server.MySqlMgr.Agrees.{Agrees, IsUniform}
use chat_server.MySqlMgr.Refines.{mysql_mgr-Agrees}
use chat_server.Samples.{Outside, sample_services, sample_outside}

-- Every query finds one row, in which each number is 2 and each text is `bo`, and every other
-- statement affects one row.
abbrev sample_row : Row
sample_row = record { get_int = λ column. some (pos 2); get_string = λ column. some (bytes "bo") }

abbrev sample_connector : Connector ℕ Outside
sample_connector = record {
  execute_query = λ c sql params s. (some (sample_row ∷ []), s);
  execute_update = λ c sql params s. (some (pos 1), s);
}

abbrev sample_IsUniform : IsUniform sample_connector 5
sample_IsUniform = record { query = λ d sql params s. refl; update = λ d sql params s. refl }

abbrev con : ℕ → SqlConnection ℕ
con n = record { con = n; last_oper_time = 0 }

mysql_mgr-Agrees_example :
    let P = mysql_mgr sample_connector in
    let F = with_mysql sample_connector 5 sample_services in
    let D = dao_of (con 5 ∷ con 6 ∷ []) false sample_outside in
    let all = con 5 ∷ con 6 ∷ [] in
    Agrees (λ r. r) (P.get_user_info (pos 2) D) (F.user_by_uid (pos 2) sample_outside) all
    × Agrees
        (λ r. r)
        (P.get_user_info_by_name (bytes "bo") D)
        (F.user_by_name (bytes "bo") sample_outside)
        all
    × Agrees
        (λ r. r)
        (P.add_friend_apply (pos 2) (pos 3) (bytes "x") D)
        (F.add_friend_apply (pos 2) (pos 3) (bytes "x") sample_outside)
        all
    × Agrees applies_or_none
        (P.get_apply_list (pos 2) [] (pos 0) (pos 10) D)
        (F.get_apply_list (pos 2) 0 10 sample_outside)
        all
    × Agrees
        (λ r. r)
        (P.get_friend_apply_alias (pos 2) (pos 3) D)
        (F.get_friend_apply_alias (pos 2) (pos 3) sample_outside)
        all
    × Agrees
        (λ r. r)
        (P.get_friend_alias (pos 2) (pos 3) D)
        (F.get_friend_alias (pos 2) (pos 3) sample_outside)
        all
    × Agrees
        (λ r. r)
        (P.auth_friend_apply (pos 2) (pos 3) D)
        (F.auth_friend_apply (pos 2) (pos 3) sample_outside)
        all
    × Agrees
        (λ r. r)
        (P.add_friend (pos 2) (pos 3) (bytes "x") (bytes "y") D)
        (F.add_friend (pos 2) (pos 3) (bytes "x") (bytes "y") sample_outside)
        all
    × Agrees
        (λ r. r)
        (P.get_friend_list (pos 2) [] D)
        (F.get_friend_list (pos 2) sample_outside)
        all
mysql_mgr-Agrees_example =
    mysql_mgr-Agrees sample_connector 5 sample_IsUniform sample_services (pos 2) (pos 3) 0 10
      (bytes "bo") (bytes "x") (bytes "y") (con 5) (con 6) [] sample_outside
