-- ===== src/ChatService/Tests.antt =====
-- Runs of the calls between nodes.
use chat_server.Base.{[]}
use chat_server.Base.Int.{pos}
use chat_server.Base.Text.{bytes}
use chat_server.Rpc.{AddFriendReq, AuthFriendReq, TextChatMsgReq}

abbrev added : AddFriendReq
added = record {
  applyuid = pos 7;
  name = bytes "lena";
  desc = [];
  touid = pos 8;
  icon = [];
  sex = pos 1;
  nick = [];
  alias_name = [];
}

abbrev accepted : AuthFriendReq
accepted = record { fromuid = pos 8; touid = pos 7 }

abbrev texts : TextChatMsgReq
texts = record { fromuid = pos 7; touid = pos 8; textmsgs = [] }
