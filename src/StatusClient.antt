-- ===== src/StatusClient.antt =====
-- src/infra/grpc/StatusGrpcClient.cpp: the calls of the status server, over the pool of
-- src/infra/grpc/StatusConPool.cpp. gRPC is an argument, and so is the state `S` of the server.
pub mod Faults
mod Tests
use chat_server.Base.{ℕ, Bool, [], ◌∷◌, ◌++◌, if◌then◌else◌}
use chat_server.Base.Int.{ℤ, pos}
use chat_server.Base.Text.{Str, bytes}
use chat_server.Domain.{ErrorCode, error_number}
use chat_server.Frame.{Outcome}
use chat_server.Rpc.{GetChatServerReq, GetChatServerRsp, LoginReq, LoginRsp}
use chat_server.Pool.{Pool, Got, Called, new_pool, get_connection, return_connection}
use chat_server.Config.{ConfigMap, config_value}

-- A call of a stub: whether the status is ok, and the reply after it.
pub record StatusStub (C S : Type 0) : Type 0 where
  pub get_chat_server : C → GetChatServerReq → GetChatServerRsp → S → (Bool × GetChatServerRsp) × S
  pub login : C → LoginReq → LoginRsp → S → (Bool × LoginRsp) × S

pub record StatusClient (C S : Type 0) : Type 0 where
  pub pool : Pool C
  pub server : S

-- The constructor, up to the state of the server.
unfoldable pub connect_status : {C : Type 0} → (Str → ℕ → C) → ConfigMap → Pool C
connect_status new_stub config = new_pool 5 (
    new_stub (
      config_value (bytes "StatusServer") (bytes "Host") config
      ++ bytes ":"
      ++ config_value (bytes "StatusServer") (bytes "Port") config))

abbrev new_chat_server_rsp : GetChatServerRsp
new_chat_server_rsp = record { error = pos 0; host = []; port = []; token = [] }

abbrev new_login_rsp : LoginRsp
new_login_rsp = record { error = pos 0; uid = pos 0; token = [] }

abbrev rpc_failed_number : ℤ
rpc_failed_number = error_number ErrorCode.rpc_failed

module _ {C S : Type 0} (G : StatusStub C S) where
  -- `getChatServer`, which dereferences a null stub.
  unfoldable pub get_chat_server : ℤ → StatusClient C S → Called GetChatServerRsp × StatusClient C S
  get_chat_server uid k =
      let (taken, rest) = get_connection k.pool in
      elim taken [
        | Got.waits ↦ (Called.blocks, k)
        | Got.nullptr ↦ (Called.returned Outcome.fault, k)
        | Got.got stub ↦
            let answer =
              G.get_chat_server stub (record { uid = uid }) new_chat_server_rsp k.server in
            (
              Called.returned (
                  Outcome.ok (
                    if answer.0.0
                    then answer.0.1
                    else record answer.0.1 { error = rpc_failed_number })),
              record { pool = return_connection stub rest; server = answer.1 },
            )
      ]

  -- `login`, which tests the stub.
  unfoldable pub status_login : ℤ → Str → StatusClient C S → Called LoginRsp × StatusClient C S
  status_login uid token k =
      let (taken, rest) = get_connection k.pool in
      elim taken [
        | Got.waits ↦ (Called.blocks, k)
        | Got.nullptr ↦
            (Called.returned (Outcome.ok (record new_login_rsp { error = rpc_failed_number })), k)
        | Got.got stub ↦
            let answer =
              G.login stub (record { uid = uid; token = token }) new_login_rsp k.server in
            (
              Called.returned (
                  Outcome.ok (
                    if answer.0.0
                    then answer.0.1
                    else record answer.0.1 { error = rpc_failed_number })),
              record { pool = return_connection stub rest; server = answer.1 },
            )
      ]
