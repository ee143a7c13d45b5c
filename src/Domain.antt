-- ===== src/Domain.antt =====
-- src/domain/const.h and src/domain/data.h: error codes, limits, message ids, Redis keys, and the
-- two structures that describe a user and a friend application.
use chat_server.Base.{ℕ, ◌++◌, []}
use chat_server.Base.Int.{ℤ, pos}
use chat_server.Base.Text.{Str, bytes}
use chat_server.Base.Decimal.{to_string}

pub data ErrorCode : Type 0 where
  success error_json rpc_failed verify_expired verify_code_error user_exist : ErrorCode
  passwd_error email_not_match passwd_up_failed passwd_invalid passwd_not_match : ErrorCode
  uid_invalid token_invalid : ErrorCode

abbrev pub error_number : ErrorCode → ℤ
error_number ErrorCode.success = pos 0
error_number ErrorCode.error_json = pos 1001
error_number ErrorCode.rpc_failed = pos 1002
error_number ErrorCode.verify_expired = pos 1003
error_number ErrorCode.verify_code_error = pos 1004
error_number ErrorCode.user_exist = pos 1005
error_number ErrorCode.passwd_error = pos 1006
error_number ErrorCode.email_not_match = pos 1007
error_number ErrorCode.passwd_up_failed = pos 1008
error_number ErrorCode.passwd_invalid = pos 1009
error_number ErrorCode.passwd_not_match = pos 1010
error_number ErrorCode.uid_invalid = pos 1011
error_number ErrorCode.token_invalid = pos 1012

-- The macros of const.h. `MAX_LENGTH` is written `1024 * 2`.
abbrev pub max_length : ℕ
max_length = 2048

abbrev pub head_total_len : ℕ
head_total_len = 4

abbrev pub head_id_len : ℕ
head_id_len = 2

abbrev pub max_sendque : ℕ
max_sendque = 1000

pub data MsgId : Type 0 where
  chat_login chat_login_rsp search_user_req search_user_rsp : MsgId
  add_friend_req add_friend_rsp notify_add_friend_req : MsgId
  auth_friend_req auth_friend_rsp notify_auth_friend_req : MsgId
  text_chat_msg_req text_chat_msg_rsp notify_text_chat_msg_req : MsgId

abbrev pub msg_number : MsgId → ℤ
msg_number MsgId.chat_login = pos 2001
msg_number MsgId.chat_login_rsp = pos 2002
msg_number MsgId.search_user_req = pos 2003
msg_number MsgId.search_user_rsp = pos 2004
msg_number MsgId.add_friend_req = pos 2005
msg_number MsgId.add_friend_rsp = pos 2006
msg_number MsgId.notify_add_friend_req = pos 2007
msg_number MsgId.auth_friend_req = pos 2008
msg_number MsgId.auth_friend_rsp = pos 2009
msg_number MsgId.notify_auth_friend_req = pos 2010
msg_number MsgId.text_chat_msg_req = pos 2011
msg_number MsgId.text_chat_msg_rsp = pos 2012
msg_number MsgId.notify_text_chat_msg_req = pos 2013

-- `namespace RedisPrefix`, each as the key that the code builds from it.
unfoldable pub user_ip_key : ℤ → Str
user_ip_key uid = bytes "uip_" ++ to_string uid

unfoldable pub user_token_key : Str → Str
user_token_key uid = bytes "utoken_" ++ uid

unfoldable pub user_base_key : Str → Str
user_base_key uid = bytes "ubaseinfo_" ++ uid

unfoldable pub user_name_key : Str → Str
user_name_key name = bytes "unameinfo_" ++ name

abbrev pub login_count : Str
login_count = bytes "logincount"

pub record UserInfo : Type 0 where
  pub name : Str
  pub pwd : Str
  pub uid : ℤ
  pub email : Str
  pub nick : Str
  pub desc : Str
  pub sex : ℤ
  pub icon : Str
  pub back : Str
  pub alias_name : Str

-- The default constructor of `UserInfo`.
abbrev pub new_user_info : UserInfo
new_user_info = record {
  name = [];
  pwd = [];
  uid = pos 0;
  email = [];
  nick = [];
  desc = [];
  sex = pos 0;
  icon = [];
  back = [];
  alias_name = [];
}

pub record ApplyInfo : Type 0 where
  pub uid : ℤ
  pub name : Str
  pub desc : Str
  pub icon : Str
  pub nick : Str
  pub sex : ℤ
  pub status : ℤ
  pub alias_name : Str
