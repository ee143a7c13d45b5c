-- ===== src/Rpc.antt =====
-- proto/message.proto: the messages that the chat nodes exchange, and those of the status
-- server.
use chat_server.Base.{List}
use chat_server.Base.Int.{ℤ}
use chat_server.Base.Text.{Str}

pub record AddFriendReq : Type 0 where
  pub applyuid : ℤ
  pub name : Str
  pub desc : Str
  pub touid : ℤ
  pub icon : Str
  pub sex : ℤ
  pub nick : Str
  pub alias_name : Str

pub record AddFriendRsp : Type 0 where
  pub error : ℤ
  pub applyuid : ℤ
  pub touid : ℤ

pub record AuthFriendReq : Type 0 where
  pub fromuid : ℤ
  pub touid : ℤ

pub record AuthFriendRsp : Type 0 where
  pub error : ℤ
  pub fromuid : ℤ
  pub touid : ℤ

pub record TextChatData : Type 0 where
  pub msgid : Str
  pub msgcontent : Str

pub record TextChatMsgReq : Type 0 where
  pub fromuid : ℤ
  pub touid : ℤ
  pub textmsgs : List TextChatData

pub record TextChatMsgRsp : Type 0 where
  pub error : ℤ
  pub fromuid : ℤ
  pub touid : ℤ
  pub textmsgs : List TextChatData

pub record GetChatServerReq : Type 0 where
  pub uid : ℤ

pub record GetChatServerRsp : Type 0 where
  pub error : ℤ
  pub host : Str
  pub port : Str
  pub token : Str

pub record LoginReq : Type 0 where
  pub uid : ℤ
  pub token : Str

pub record LoginRsp : Type 0 where
  pub error : ℤ
  pub uid : ℤ
  pub token : Str
