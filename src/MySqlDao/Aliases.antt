-- ===== src/MySqlDao/Aliases.antt =====
-- src/infra/mysql/MySqlDao.cpp: the rows of an alias, by a pair of ids.
use chat_server.Base.{◌≡◌, refl, Bool, ◌&&◌, List, [], ◌∷◌, Option, none, some, if◌then◌else◌}
use chat_server.Base.Int.{ℤ, int_eq}
use chat_server.Base.Text.{Str, bytes, str_eq}
use chat_server.MySqlDao.{Row, found_alias}

-- A row with the one column `alias_name`.
abbrev pub alias_row : Str → Row
alias_row x = record {
  get_int = λ column. none;
  get_string = λ column. if str_eq column (bytes "alias_name") then some x else none;
}

abbrev pub alias_rows : Option Str → List Row
alias_rows none = []
alias_rows (some x) = alias_row x ∷ []

pub found_alias-alias_rows : (o : Option Str) → found_alias (some (alias_rows o)) ≡ o
found_alias-alias_rows none = refl
found_alias-alias_rows (some x) = refl

abbrev pub same_pair : ℤ → ℤ → ℤ → ℤ → Bool
same_pair a b p q = int_eq a p && int_eq b q
