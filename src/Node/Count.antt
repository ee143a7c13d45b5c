-- ===== src/Node/Count.antt =====
-- src/app/ChatServer.cpp with src/application/LogicSystem.cpp and src/net/CSession.cpp: the login
-- counter over the life of a node.
use chat_server.Base.{◌≡◌, refl, ap, ◌∙◌, List, [], ◌∷◌, some, length, arith}
use chat_server.Base.Int.{pos}
use chat_server.Base.Text.{bytes}
use chat_server.Domain.{login_count}
use chat_server.Services.{Services, HashLaws}
use chat_server.Frame.{Outcome}
use chat_server.World.{World, ◌>>◌}
use chat_server.World.Store.{bind-ok}
use chat_server.Session.{read_count}
use chat_server.Logic.Presence.{counter}
use chat_server.Node.{Event, start_node, event, life}
use chat_server.Base.Decimal.{stoi}
use chat_server.Node.Tracks.{AllFit, Tracks, event_ok}
use chat_server.Node.Steps.{event-Keeps}
use chat_server.Node.Online.{nobody, Online, after, after_all, ArePossible}

zero_count : read_count (bytes "0") ≡ some (pos 0)
unfolding stoi
zero_count = refl

module _ {S : Type 0} (E : Services S) (laws : HashLaws E) where
  life-Keeps :
      (es : List Event) (o : Online) (w : World S)
      → Tracks E o w
      → ArePossible es o
      → ((life E es w).0 ≡ Outcome.ok tt) × Tracks E (after_all es o) (life E es w).1
  life-Keeps [] o w t h = (refl, t)
  life-Keeps (e ∷ es) o w t h =
      let (returned, kept) = event-Keeps E laws e o w t h.0 in
      rw (bind-ok (event E e) (λ _. life E es) w (event_ok E e w returned))
        (life-Keeps es (after e o) (event E e w).1 kept h.1)

  start_node-Tracks :
      (w : World S) → ((start_node E w).0 ≡ Outcome.ok tt) × Tracks E nobody (start_node E w).1
  unfolding start_node
  start_node-Tracks w = (
    refl,
    record {
      count =
          ap read_count (laws.h_get-h_set login_count E.self_name (bytes "0") w.outside)
          ∙ zero_count;
      bounded = omega arith;
      no_dup = tt;
      opened = λ q e. cc;
      fit = λ q e. cc;
    },
  )

  -- Let Redis keep what is written to a hash (HashLaws), and let connections be accepted, logged in
  -- and closed after the start of the node, in any order, but each of these whole before the next
  -- begins, so that no update of the login counter falls between the read and the write of another.
  -- Let each accept be of a new connection, and each login on an open connection without a user, of a
  -- user with a positive uid, while fewer than the largest `int` are logged in. Then the code returns
  -- each time, the login counter reads as the number of the connections that are logged in at the
  -- end, and every open connection has a user exactly if it is one of these.
  pub life-count :
      (es : List Event) (w : World S)
      → ArePossible es nobody
      → let r = (start_node E >> life E es) w in
        let o = after_all es nobody in
        (r.0 ≡ Outcome.ok tt)
        × (counter E r.1 ≡ some (pos (length o.online)))
        × AllFit o r.1.sessions
  unfolding start_node
  life-count es w h =
      let started = (start_node E w).1 in
      let (returned, kept) = life-Keeps es nobody started (start_node-Tracks w).1 h in
      (returned, kept.count, kept.fit)
