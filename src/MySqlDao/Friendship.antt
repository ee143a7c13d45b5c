-- ===== src/MySqlDao/Friendship.antt =====
-- src/infra/mysql/MySqlDao.cpp: what addFriend writes, and getFriendAlias reads, of the table
-- `friend`.
use chat_server.Base.{
  ◌≡◌, refl, ap, ◌∙◌, false, not, ◌||◌, List, [], ◌∷◌, ◌++◌, Option, none, some, is_some,
  if◌then◌else◌, arith,
}
use chat_server.Base.Int.{ℤ, pos, int_eq_iff, is_pos}
use chat_server.Base.Text.{Str}
use chat_server.Pool.{get_connection, return_connection}
use chat_server.MySqlPool.{SqlConnection}
use chat_server.MySqlDao.{Param, Connector, Run, select_friend_alias, insert_friend}
use chat_server.MySqlDao.Calls.{insert_one, insert_both, get_friend_alias, add_friend}
use chat_server.MySqlDao.Keeps.{dao_of}
use chat_server.MySqlDao.Aliases.{alias_rows, found_alias-alias_rows, same_pair}

-- The alias that is there stays.
abbrev pub kept : Option Str → Str → Str
kept none x = x
kept (some y) x = y

-- The documented behaviour of MySQL on `friend`, whose key is the pair of ids: the alias of a pair in
-- a state; SELECT finds its row, and INSERT IGNORE affects a row only where the pair is new.
pub record FriendLaws {C S : Type 0} (M : Connector C S) (alias_of : S → ℤ → ℤ → Option Str)
    : Type 0 where
  pub select :
      (c : C) (a b : ℤ) (s : S)
      → M.execute_query c select_friend_alias (Param.int a ∷ Param.int b ∷ []) s
        ≡ (some (alias_rows (alias_of s a b)), s)
  pub insert :
      (c : C) (a b : ℤ) (x : Str) (s : S)
      → (M.execute_update c insert_friend (Param.int a ∷ Param.int b ∷ Param.text x ∷ []) s).0
        ≡ some (if is_some (alias_of s a b) then pos 0 else pos 1)
  pub inserted :
      (c : C) (a b : ℤ) (x : Str) (s : S) (p q : ℤ)
      → alias_of
          (M.execute_update c insert_friend (Param.int a ∷ Param.int b ∷ Param.text x ∷ []) s).1
          p
          q
        ≡ (if same_pair a b p q then some (kept (alias_of s a b) x) else alias_of s p q)

module _ {C S : Type 0} (M : Connector C S) (alias_of : S → ℤ → ℤ → Option Str)
    (L : FriendLaws M alias_of) where
  -- The table after addFriend: each of the two pairs that was new has its alias.
  abbrev pub befriended : ℤ → ℤ → Str → Str → S → ℤ → ℤ → Option Str
  befriended a b x y s p q =
      if same_pair a b p q
      then some (kept (alias_of s a b) x)
      else if same_pair b a p q
      then some (kept (alias_of s b a) y)
      else alias_of s p q

  abbrev after_one : SqlConnection C → ℤ → ℤ → Str → S → S
  after_one c a b x s = (insert_one M a b x c s).1

  after_both-alias :
      (c : SqlConnection C) (a b : ℤ) (x y : Str) (s : S) (p q : ℤ)
      → alias_of (after_one c b a y (after_one c a b x s)) p q ≡ befriended a b x y s p q
  after_both-alias c a b x y s p q =
      rw
        (
          L.inserted c.con b a y (after_one c a b x s) p q,
          L.inserted c.con a b x s b a,
          L.inserted c.con a b x s p q,
        )
        (grind (
          arith,
          int_eq_iff a b,
          int_eq_iff b a,
          int_eq_iff a p,
          int_eq_iff b q,
          int_eq_iff b p,
          int_eq_iff a q,
        ))

  new_pairs :
      (a b : ℤ) (x : Str) (s : S)
      → (is_pos (if is_some (alias_of s a b) then pos 0 else pos 1)
          || is_pos (
              if is_some
                (if same_pair a b b a then some (kept (alias_of s a b) x) else alias_of s b a)
              then pos 0
              else pos 1))
        ≡ (not (is_some (alias_of s a b)) || not (is_some (alias_of s b a)))
  new_pairs a b x s = grind (arith, int_eq_iff a b, int_eq_iff b a)

  add_friend-open :
      (a b : ℤ) (x y : Str) (c : SqlConnection C) (cs : List (SqlConnection C)) (s : S)
      → add_friend M a b x y (dao_of (c ∷ cs) false s) ≡ (
        Run.returns (not (is_some (alias_of s a b)) || not (is_some (alias_of s b a))),
        dao_of (cs ++ c ∷ []) false (after_one c b a y (after_one c a b x s)),
      )
  unfolding add_friend get_connection return_connection
  add_friend-open a b x y c cs s =
      rw
        (
          insert_both,
          L.insert c.con a b x s,
          L.insert c.con b a y (after_one c a b x s),
          L.inserted c.con a b x s b a,
        )
        (ap
          (λ r.
            (Run.returns r, dao_of (cs ++ c ∷ []) false (after_one c b a y (after_one c a b x s))))
          (new_pairs a b x s))

  get_friend_alias-open :
      (p q : ℤ) (c : SqlConnection C) (cs : List (SqlConnection C)) (s : S)
      → (get_friend_alias M p q (dao_of (cs ++ c ∷ []) false s)).0 ≡ Run.returns (alias_of s p q)
  unfolding get_friend_alias get_connection
  get_friend_alias-open p q c [] s =
      rw (L.select c.con p q s, found_alias-alias_rows (alias_of s p q))
  get_friend_alias-open p q c (d ∷ cs) s =
      rw (L.select d.con p q s, found_alias-alias_rows (alias_of s p q))

  -- Let MySQL keep `friend` as documented, and let the pool be open with a connection in it. Then
  -- addFriend is `true` exactly if one of the two directions was new, and getFriendAlias of any pair
  -- after it finds the given alias for a direction that was new, and otherwise what was there.
  pub add_friend-alias :
      (a b : ℤ) (x y : Str) (c : SqlConnection C) (cs : List (SqlConnection C)) (s : S) (p q : ℤ)
      → let r = add_friend M a b x y (dao_of (c ∷ cs) false s) in
        (r.0 ≡ Run.returns (not (is_some (alias_of s a b)) || not (is_some (alias_of s b a))))
        × ((get_friend_alias M p q r.1).0 ≡ Run.returns (befriended a b x y s p q))
  add_friend-alias a b x y c cs s p q =
      let after = after_one c b a y (after_one c a b x s) in
      rw (add_friend-open a b x y c cs s) (
        refl,
        get_friend_alias-open p q c cs after ∙ ap Run.returns (after_both-alias c a b x y s p q),
      )
