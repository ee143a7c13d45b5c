-- ===== src/MySqlMgr/Agrees.antt =====
-- src/infra/mysql/MySqlMgr.cpp: a call over a pool of connections beside the same call on the
-- database's state alone.
use chat_server.Base.{
  ◌≡◌, ◌≢◌, refl, ap, false, ◌||◌, List, [], ◌∷◌, ◌++◌, Option, Option-cases, inl, inr,
}
use chat_server.Base.Int.{ℤ, is_pos}
use chat_server.Base.Text.{Str}
use chat_server.Pool.{get_connection, return_connection}
use chat_server.Pool.Rotate.{SamePool, Perm-to_back, pool_of}
use chat_server.MySqlPool.{SqlConnection}
use chat_server.MySqlDao.{Param, Row, Connector, Dao, Run, insert_friend}
use chat_server.MySqlDao.Calls.{with_connection, query, update, insert_one, insert_both, add_friend}
use chat_server.MySqlDao.Keeps.{dao_of}
use chat_server.MySqlMgr.Answers.{asked, changed, befriend}

-- A call has returned with a result that reads as another call's, it leaves the same state behind
-- it, and the pool has the connections that it had in some order.
pub record Agrees {A B C S : Type 0} (reads : A → B) (r : Run A × Dao C S) (q : B × S)
    (cs : List (SqlConnection C)) : Type 0 where
  pub answer : A
  pub returns : r.0 ≡ Run.returns answer
  pub result : reads answer ≡ q.0
  pub server : r.1.server ≡ q.1
  pub pool : SamePool r.1.pool (pool_of cs false)

pub waits-ne-returns : {A : Type 0} {a : A} → Run.waits ≢ Run.returns a
waits-ne-returns h = cc

-- Every connection leads to one database.
pub record IsUniform {C S : Type 0} (M : Connector C S) (c : C) : Type 0 where
  pub query :
      (d : C) (sql : Str) (params : List Param) (s : S)
      → M.execute_query d sql params s ≡ M.execute_query c sql params s
  pub update :
      (d : C) (sql : Str) (params : List Param) (s : S)
      → M.execute_update d sql params s ≡ M.execute_update c sql params s

module _ {C S : Type 0} (M : Connector C S) (c : C) (U : IsUniform M c) where
  pub to_back :
      (d : SqlConnection C) (ds : List (SqlConnection C))
      → SamePool (pool_of (ds ++ d ∷ []) false) (pool_of (d ∷ ds) false)
  to_back d ds = record { connections = Perm-to_back d ds; b_stop = refl }

  pub asked-Agrees :
      {A B : Type 0} (failed : A) (sql : Str) (params : List Param) (decide : Option (List Row) → A)
      (reads : A → B) (d : SqlConnection C) (ds : List (SqlConnection C)) (s : S)
      → Agrees reads
          (with_connection failed (query M sql params decide) (dao_of (d ∷ ds) false s))
          (asked M c sql params (λ rows. reads (decide rows)) s)
          (d ∷ ds)
  unfolding get_connection return_connection
  asked-Agrees failed sql params decide reads d ds s = record {
    answer = decide (M.execute_query c sql params s).0;
    returns = rw (U.query d.con sql params s) refl;
    result = refl;
    server = rw (U.query d.con sql params s) refl;
    pool = to_back d ds;
  }

  pub changed-Agrees :
      {A : Type 0} (failed : A) (sql : Str) (params : List Param) (decide : Option ℤ → A)
      (d : SqlConnection C) (ds : List (SqlConnection C)) (s : S)
      → Agrees
          (λ a. a)
          (with_connection failed (update M sql params decide) (dao_of (d ∷ ds) false s))
          (changed M c sql params decide s)
          (d ∷ ds)
  unfolding get_connection return_connection
  changed-Agrees failed sql params decide d ds s = record {
    answer = decide (M.execute_update c sql params s).0;
    returns = rw (U.update d.con sql params s) refl;
    result = refl;
    server = rw (U.update d.con sql params s) refl;
    pool = to_back d ds;
  }

  pub add_friend-Agrees :
      (a b : ℤ) (x y : Str) (d : SqlConnection C) (ds : List (SqlConnection C)) (s : S)
      → Agrees
          (λ r. r)
          (add_friend M a b x y (dao_of (d ∷ ds) false s))
          (befriend M c a b x y s)
          (d ∷ ds)
  unfolding add_friend get_connection return_connection
  add_friend-Agrees a b x y d ds s =
      let one = Param.int a ∷ Param.int b ∷ Param.text x ∷ [] in
      let two = Param.int b ∷ Param.int a ∷ Param.text y ∷ [] in
      let first = M.execute_update c insert_friend one s in
      let second = M.execute_update c insert_friend two first.1 in
      let u = U.update d.con insert_friend one s in
      let v = U.update d.con insert_friend two first.1 in
      let w : insert_one M b a y d (insert_one M a b x d s).1 ≡ second = rw (u, v) refl in
      elim (Option-cases first.0) [
        | inl h ↦
            rw (insert_both, u, befriend, h)
              (record {
                answer = false;
                returns = refl;
                result = refl;
                server = rw u refl;
                pool = to_back d ds;
              })
        | inr (m, h) ↦ elim (Option-cases second.0) [
          | inl k ↦
              rw (insert_both, u, befriend, h, w, k)
                (record {
                  answer = false;
                  returns = refl;
                  result = refl;
                  server = ap (λ r. r.1) w;
                  pool = to_back d ds;
                })
          | inr (n, k) ↦
              rw (insert_both, u, befriend, h, w, k)
                (record {
                  answer = is_pos m || is_pos n;
                  returns = refl;
                  result = refl;
                  server = ap (λ r. r.1) w;
                  pool = to_back d ds;
                })
        ]
      ]
