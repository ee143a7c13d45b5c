-- ===== src/StatusClient/Faults.antt =====
-- src/infra/grpc/StatusGrpcClient.cpp: a call while the pool is closed, and the stubs of the pool.
use chat_server.Base.{◌≡◌, ◌≢◌, ◌↔◌, refl, Bool, true, false, List, [], ◌∷◌}
use chat_server.Base.Int.{ℤ}
use chat_server.Base.Text.{Str}
use chat_server.Frame.{Outcome}
use chat_server.Pool.{Called, get_connection, return_connection}
use chat_server.Pool.Rotate.{rotated, pool_of}
use chat_server.StatusClient.{StatusStub, StatusClient, get_chat_server, status_login}

module _ {C S : Type 0} (G : StatusStub C S) where
  abbrev client_of : List C → Bool → S → StatusClient C S
  client_of cs b s = record { pool = pool_of cs b; server = s }

  get_chat_server-fault_by :
      (uid : ℤ) (cs : List C) (b : Bool) (s : S)
      → ((get_chat_server G uid (client_of cs b s)).0 ≡ Called.returned Outcome.fault) ↔ (b ≡ true)
  unfolding get_chat_server get_connection
  get_chat_server-fault_by uid cs true s = (λ h. refl, λ h. refl)
  get_chat_server-fault_by uid [] false s = (λ h. cc, λ h. cc)
  get_chat_server-fault_by uid (c ∷ cs) false s = (λ h. cc, λ h. cc)

  login-ne-fault_by :
      (uid : ℤ) (token : Str) (cs : List C) (b : Bool) (s : S)
      → (status_login G uid token (client_of cs b s)).0 ≢ Called.returned Outcome.fault
  unfolding status_login get_connection
  login-ne-fault_by uid token cs true s = λ h. cc
  login-ne-fault_by uid token [] false s = λ h. cc
  login-ne-fault_by uid token (c ∷ cs) false s = λ h. cc

  calls-rotate_by :
      (uid : ℤ) (token : Str) (cs : List C) (b : Bool) (s : S)
      → ((get_chat_server G uid (client_of cs b s)).1.pool ≡ rotated (pool_of cs b))
        × ((status_login G uid token (client_of cs b s)).1.pool ≡ rotated (pool_of cs b))
  unfolding get_chat_server status_login get_connection return_connection
  calls-rotate_by uid token cs true s = (refl, refl)
  calls-rotate_by uid token [] false s = (refl, refl)
  calls-rotate_by uid token (c ∷ cs) false s = (refl, refl)

  -- getChatServer dereferences a null pointer exactly if the pool is closed, and login never does.
  -- Each leaves the pool with the stub that it used at the back, and a closed or an empty pool as it
  -- was.
  pub status_calls-faults :
      (uid : ℤ) (token : Str) (k : StatusClient C S)
      → (((get_chat_server G uid k).0 ≡ Called.returned Outcome.fault) ↔ (k.pool.b_stop ≡ true))
        × ((status_login G uid token k).0 ≢ Called.returned Outcome.fault)
        × ((get_chat_server G uid k).1.pool ≡ rotated k.pool)
        × ((status_login G uid token k).1.pool ≡ rotated k.pool)
  status_calls-faults uid token k =
      let cs = k.pool.connections in
      let b = k.pool.b_stop in
      (
        get_chat_server-fault_by uid cs b k.server,
        login-ne-fault_by uid token cs b k.server,
        (calls-rotate_by uid token cs b k.server).0,
        (calls-rotate_by uid token cs b k.server).1,
      )
