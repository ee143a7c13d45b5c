-- ===== src/ChatClient/Peers.antt =====
-- src/infra/grpc/ChatGrpcClient.cpp: the pools that the constructor makes of the configuration.
use mathlib.Core.List.{append_assoc, append-nil}
use chat_server.Base.{
  ℕ, ◌≡◌, refl, sym, ap, ◌∙◌, Bool, true, false, not, ◌&&◌, ◌==◌, List, [], ◌∷◌, ◌++◌, Option, none,
  some, if◌then◌else◌, All, Option-cases, inl, inr,
}
use chat_server.Base.Text.{Str, bytes, str_eq, is_empty, str_key}
use chat_server.Base.Dict.{Dict, find, assign, find-assign}
use chat_server.Pool.{Pool}
use chat_server.Config.{ConfigMap, config_value}
use chat_server.ChatClient.{words_from, peer_pool, add_peers, connect_peers}

-- A word that is not empty and has no comma.
pub record IsWord (w : Str) : Type 0 where
  pub ne_empty : is_empty w ≡ false
  pub no_comma : All (λ b. (b == 44) ≡ false) w

abbrev pub join_commas : List Str → Str
join_commas [] = []
join_commas (w ∷ []) = w
join_commas (w ∷ v ∷ ws) = w ++ 44 ∷ join_commas (v ∷ ws)

words_from-append :
    (acc w s : Str)
    → All (λ b. (b == 44) ≡ false) w
    → words_from acc (w ++ s) ≡ words_from (acc ++ w) s
unfolding words_from
words_from-append acc [] s h = rw (append-nil acc) refl
words_from-append acc (b ∷ w) s h =
    rw (h.0, ← append_assoc acc (b ∷ []) w) (words_from-append (acc ++ b ∷ []) w s h.1)

words_from-comma : (w s : Str) → words_from w (44 ∷ s) ≡ w ∷ words_from [] s
unfolding words_from
words_from-comma w s = refl

words_from-end : (w : Str) → is_empty w ≡ false → words_from w [] ≡ w ∷ []
unfolding words_from
words_from-end w h = rw h refl

words_from-join_commas : (ws : List Str) → All IsWord ws → words_from [] (join_commas ws) ≡ ws
unfolding words_from
words_from-join_commas [] h = refl
words_from-join_commas (w ∷ []) h =
    ap (words_from []) (sym (append-nil w))
    ∙ words_from-append [] w [] h.0.no_comma
    ∙ words_from-end w h.0.ne_empty
words_from-join_commas (w ∷ v ∷ ws) h =
    words_from-append [] w (44 ∷ join_commas (v ∷ ws)) h.0.no_comma
    ∙ words_from-comma w (join_commas (v ∷ ws))
    ∙ ap (λ rest. w ∷ rest) (words_from-join_commas (v ∷ ws) h.1)

module _ {C : Type 0} where
  abbrev or_else : Option (Pool C) → Option (Pool C) → Option (Pool C)
  or_else (some pool) o = some pool
  or_else none o = o

  or_else-none : (o : Option (Pool C)) → or_else o none ≡ o
  or_else-none none = refl
  or_else-none (some pool) = refl

  found_or :
      (b : Bool) (pool : Pool C) (o : Option (Pool C))
      → (if b then some pool else o) ≡ or_else (if b then some pool else none) o
  found_or true pool o = refl
  found_or false pool o = refl

  assign_named :
      (n name : Str) (pool : Pool C) (pools : Dict Str (Pool C))
      → find name (if is_empty n then pools else assign n pool pools)
        ≡ or_else
            (if not (is_empty name) && str_eq n name then some pool else none)
            (find name pools)
  assign_named [] [] pool pools = refl
  assign_named [] (y ∷ name) pool pools = refl
  assign_named (b ∷ n) [] pool pools = find-assign (b ∷ n) [] pool pools
  assign_named (b ∷ n) (y ∷ name) pool pools =
      find-assign (b ∷ n) (y ∷ name) pool pools
      ∙ found_or (str_eq (b ∷ n) (y ∷ name)) pool (find (y ∷ name) pools)

module _ {C : Type 0} (new_stub : Str → ℕ → C) (config : ConfigMap) where
  abbrev peer_name : Str → Str
  peer_name word = config_value word (bytes "Name") config

  -- The pool of the last word of a list whose section has this name, which is not empty.
  abbrev pub last_peer : Str → List Str → Option (Pool C)
  last_peer name [] = none
  last_peer name (word ∷ rest) = elim (last_peer name rest) [
    | some pool ↦ some pool
    | none ↦
        if not (is_empty name) && str_eq (peer_name word) name
        then some (peer_pool new_stub config word)
        else none
  ]

  add_one-find :
      (word name : Str) (pools : Dict Str (Pool C))
      → find name (
          if is_empty (peer_name word)
          then pools
          else assign (peer_name word) (peer_pool new_stub config word) pools)
        ≡ or_else
            (if not (is_empty name) && str_eq (peer_name word) name
              then some (peer_pool new_stub config word)
              else none)
            (find name pools)
  add_one-find word name pools =
      assign_named (peer_name word) name (peer_pool new_stub config word) pools

  add_peers-find :
      (ws : List Str) (name : Str) (pools : Dict Str (Pool C))
      → find name (add_peers new_stub config ws pools)
        ≡ or_else (last_peer name ws) (find name pools)
  unfolding add_peers
  add_peers-find [] name pools = refl
  add_peers-find (word ∷ rest) name pools = elim (Option-cases (last_peer name rest)) [
    | inl h ↦ add_peers-find rest name _ ∙ rw (last_peer, h) (add_one-find word name pools)
    | inr (pool, h) ↦ add_peers-find rest name _ ∙ rw (last_peer, h) refl
  ]

  -- Let the list of servers be words with commas between them, none of them empty. Then the pool of
  -- a node is one of five stubs to the host and port of the last of these sections that has its
  -- name, and there is none for the empty name or where no section has it.
  pub connect_peers-find :
      (ws : List Str) (name : Str)
      → All IsWord ws
      → config_value (bytes "PeerServer") (bytes "Servers") config ≡ join_commas ws
      → find name (connect_peers new_stub config) ≡ last_peer name ws
  unfolding connect_peers
  connect_peers-find ws name h e =
      rw (e, words_from-join_commas ws h)
        (add_peers-find ws name [] ∙ or_else-none (last_peer name ws))
