-- ===== src/Node/Accept.antt =====
-- src/net/CServer.cpp: the loop of accepts, from the constructor on. The session map is part of the
-- world; the acceptor's socket is boost::asio's.
use chat_server.Base.{
  ℕ, suc, ◌+◌, ◌%◌, ◌<◌, ◌≡◌, refl, ap, ◌∙◌, Bool, true, false, List, [], ◌∷◌, ◌++◌, length, Option,
  some, if◌then◌else◌, arith,
}
use chat_server.Base.Text.{Str, str_eq, str_key}
use chat_server.Base.Dict.{find, find-assign}
use chat_server.Frame.{Outcome}
use chat_server.World.{World, M, pure, ◌>>=◌, ◌>>◌}
use chat_server.IoPool.{IoServicePool, io_service_pool, get_io_service, after}
use chat_server.IoPool.Stop.{io_service_pool-life}
use chat_server.Session.{handle_accept, async_read_head}

-- The `io_context` of a session's socket: the server's own, or one of the pool's.
pub data IoContext : Type 0 where
  own : IoContext
  pooled : ℕ → IoContext

pub record CServer : Type 0 where
  -- The pool, which is a singleton.
  pub io_services : IoServicePool
  -- How many sessions were made; the pointer of the next one.
  pub made : ℕ
  -- The accepts that are under way, each with its session and the context of that.
  pub waiting : List (ℕ × IoContext)

-- `StartAccept`: a context is taken out of the pool, and another is given to the session.
start_accept : CServer → CServer
start_accept server =
    let given = get_io_service server.io_services in
    record {
      io_services = given.1;
      made = server.made + 1;
      waiting = server.waiting ++ (server.made, IoContext.own) ∷ [];
    }

-- The constructor.
pub new_server : IoServicePool → CServer
unfolding start_accept
new_server pool = start_accept (record { io_services = pool; made = 0; waiting = [] })

module _ {S : Type 0} where
  -- `HandleAccept`, as the callback of the accept that came first: with the id of its session, and
  -- whether it failed.
  accept_done : Str × Bool → CServer → M S CServer
  unfolding start_accept handle_accept
  accept_done (id, failed) server = elim server.waiting [
    | [] ↦ pure server
    | (p, context) ∷ rest ↦ do
      handle_accept p id failed
      pure (start_accept (record server { waiting = rest }))
  ]

  -- The server over the accepts that complete.
  pub serve : List (Str × Bool) → CServer → M S CServer
  unfolding accept_done
  serve [] server = pure server
  serve (done ∷ rest) server = do server' ← accept_done done server; serve rest server'

-- The session that an id leads to, by the accepts in their order, which are numbered from `k` on.
abbrev pub registered : Str → ℕ → List (Str × Bool) → Option ℕ → Option ℕ
registered id k [] known = known
registered id k ((j, true) ∷ rest) known = registered id (k + 1) rest known
registered id k ((j, false) ∷ rest) known =
    registered id (k + 1) rest (if str_eq j id then some k else known)

-- The server while the accept of session `k` is under way, and no other.
abbrev pub listening : ℕ → IoServicePool → CServer
listening k pool = record { io_services = pool; made = k + 1; waiting = (k, IoContext.own) ∷ [] }

module _ {S : Type 0} where
  serve-listening :
      (id : Str) (es : List (Str × Bool)) (k : ℕ) (pool : IoServicePool) (w : World S)
      → let done = serve es (listening k pool) w in
        (done.0 ≡ Outcome.ok (listening (k + length es) (after (length es) pool)))
        × (find id done.1.server_sessions ≡ registered id k es (find id w.server_sessions))
  unfolding serve accept_done start_accept handle_accept async_read_head
  serve-listening id [] k pool w = (ap (λ n. Outcome.ok (listening n pool)) (omega arith), refl)
  serve-listening id ((j, true) ∷ es) k pool w =
      let next = serve-listening id es (k + 1) (get_io_service pool).1 w in
      (
        next.0
            ∙ ap (λ n. Outcome.ok (listening n (after (length es) (get_io_service pool).1)))
                (omega arith),
        next.1,
      )
  serve-listening id ((j, false) ∷ es) k pool w =
      let next = serve-listening id es (k + 1) (get_io_service pool).1 _ in
      (
        next.0
            ∙ ap (λ n. Outcome.ok (listening n (after (length es) (get_io_service pool).1)))
                (omega arith),
        next.1 ∙ ap (registered id (k + 1) es) (find-assign j id k w.server_sessions),
      )

  -- Let a server be constructed with a pool of at least one context, and let accepts complete, well
  -- or with an error, one after the other. Each completion is handled without an exception; after
  -- all of them exactly one accept is under way, of a session that was never used before, on the
  -- server's own context. An id leads to the session of the last accept of that id which did not
  -- fail, and where there is none to what it led to before. The pool, which no session runs on, has
  -- gone around by one context for each accept.
  pub serve-accepts :
      (id : Str) (es : List (Str × Bool)) (contexts : ℕ) (w : World S)
      → 0 < contexts
      → let done = serve es (new_server (io_service_pool contexts)) w in
        ((server : CServer) × (done.0 ≡ Outcome.ok server)
          × (server.waiting ≡ (length es, IoContext.own) ∷ [])
          × ((get_io_service server.io_services).0 ≡ (length es + 1) % contexts))
        × (find id done.1.server_sessions ≡ registered id 0 es (find id w.server_sessions))
  unfolding new_server start_accept
  serve-accepts id es contexts w h = (
    (
      _,
      all.0,
      ap (λ n. (n, IoContext.own) ∷ []) (omega arith),
      (io_service_pool-life (suc (length es)) contexts h).0 ∙ ap (λ i. i % contexts) (omega arith),
    ),
    all.1,
  )
    where
      first : IoServicePool
      first = (get_io_service (io_service_pool contexts)).1

      all :
          let done = serve es (listening 0 first) w in
          (done.0 ≡ Outcome.ok (listening (0 + length es) (after (length es) first)))
          × (find id done.1.server_sessions ≡ registered id 0 es (find id w.server_sessions))
      all = serve-listening id es 0 first w
