-- ===== src/Logic/Built.antt =====
-- src/application/LogicSystem.cpp: how the handlers are built, but that of the login. A handler
-- sends on the session of the message and on those that it finds.
use chat_server.Base.{ℕ, List, [], ◌∷◌}
use chat_server.Base.Int.{ℤ}
use chat_server.Base.Text.{Str}
use chat_server.Base.Dict.{int_key}
use chat_server.Domain.{UserInfo, MsgId}
use chat_server.Json.{Json, Members}
use chat_server.Services.{Services}
use chat_server.World.{M}
use chat_server.World.Built.{Built, built}
use chat_server.Logic.Lookup.{
  cache_profile, get_base_info, get_user_by_uid, get_user_by_name, search_by, search_result,
  search_user_handler,
}
use chat_server.Logic.Friends.{
  send_to_user, notify_applied, apply_friend, add_friend_handler, notify_accepted, make_friends,
  auth_friend_handler,
}
use chat_server.Logic.Chat.{text_messages, forward_text, deliver_text, chat_text_msg_handler}

module _ {S V : Type 0} (J : Json V) (E : Services S) (Ok : ℕ → Type 0) where
  cache_profile-Built :
      (key : Str) (u : UserInfo) (text : Str) → Built S Ok _ (cache_profile J E key u text)
  unfolding cache_profile
  cache_profile-Built key u text = search (built) depth 8

  pub get_base_info-Built : (key : Str) (uid : ℤ) → Built S Ok _ (get_base_info J E key uid)
  unfolding get_base_info
  get_base_info-Built key uid = search (built, cache_profile-Built) depth 8

  get_user_by_uid-Built : (uid_str : Str) → Built S Ok _ (get_user_by_uid J E uid_str)
  unfolding get_user_by_uid
  get_user_by_uid-Built uid_str = search (built, cache_profile-Built) depth 8

  get_user_by_name-Built : (name_str : Str) → Built S Ok _ (get_user_by_name J E name_str)
  unfolding get_user_by_name
  get_user_by_name-Built name_str = search (built, cache_profile-Built) depth 8

  search_result-Built : (msg_data : Str) → Built S Ok _ (search_result J E msg_data)
  unfolding search_result search_by
  search_result-Built msg_data =
      search (built, get_user_by_uid-Built, get_user_by_name-Built) depth 10

  pub search_user_handler-Built :
      (p : ℕ) → Ok p → (msg_data : Str) → Built S Ok _ (search_user_handler J E p msg_data)
  unfolding search_user_handler
  search_user_handler-Built p ne msg_data = search (built, ne, search_result-Built) depth 8

  send_to_user-Built :
      (uid : ℤ) (id : MsgId) (notice : M S (Members V))
      → Built S Ok _ notice
      → Built S Ok _ (send_to_user J E uid id notice)
  unfolding send_to_user
  send_to_user-Built uid id notice k = search (built) depth 8

  notify_applied-Built :
      (uid : ℤ) (name alias_name : Str) (touid : ℤ) (to_ip : Str)
      → Built S Ok _ (notify_applied J E uid name alias_name touid to_ip)
  unfolding notify_applied
  notify_applied-Built uid name alias_name touid to_ip =
      search (built, get_base_info-Built, send_to_user-Built) depth 8

  apply_friend-Built :
      (uid : ℤ) (name alias_name : Str) (touid : ℤ)
      → Built S Ok _ (apply_friend J E uid name alias_name touid)
  unfolding apply_friend
  apply_friend-Built uid name alias_name touid = search (built, notify_applied-Built) depth 8

  pub add_friend_handler-Built :
      (p : ℕ) → Ok p → (msg_data : Str) → Built S Ok _ (add_friend_handler J E p msg_data)
  unfolding add_friend_handler
  add_friend_handler-Built p ne msg_data = search (built, ne, apply_friend-Built) depth 14

  notify_accepted-Built :
      (accepter applicant : ℤ) (peer_alias to_ip : Str)
      → Built S Ok _ (notify_accepted J E accepter applicant peer_alias to_ip)
  unfolding notify_accepted
  notify_accepted-Built accepter applicant peer_alias to_ip =
      search (built, get_base_info-Built, send_to_user-Built) depth 8

  make_friends-Built :
      (applicant accepter : ℤ) (alias_name : Str)
      → Built S Ok _ (make_friends J E applicant accepter alias_name)
  unfolding make_friends
  make_friends-Built applicant accepter alias_name = search (built) depth 12

  pub auth_friend_handler-Built :
      (p : ℕ) → Ok p → (msg_data : Str) → Built S Ok _ (auth_friend_handler J E p msg_data)
  unfolding auth_friend_handler
  auth_friend_handler-Built p ne msg_data =
      search (built, ne, get_base_info-Built, make_friends-Built, notify_accepted-Built) depth 18

  text_messages-Built : (vs : List V) → Built S Ok _ (text_messages J E vs)
  unfolding text_messages
  text_messages-Built [] = search built
  text_messages-Built (v ∷ vs) = let rest = text_messages-Built vs in search (built, rest) depth 10

  forward_text-Built :
      (fromuid touid : ℤ) (text_array : V) (to_ip : Str)
      → Built S Ok _ (forward_text J E fromuid touid text_array to_ip)
  unfolding forward_text
  forward_text-Built fromuid touid text_array to_ip = search (built, text_messages-Built) depth 8

  deliver_text-Built :
      (fromuid touid : ℤ) (text_array : V)
      → Built S Ok _ (deliver_text J E fromuid touid text_array)
  unfolding deliver_text
  deliver_text-Built fromuid touid text_array = search (built, forward_text-Built) depth 8

  pub chat_text_msg_handler-Built :
      (p : ℕ) → Ok p → (msg_data : Str) → Built S Ok _ (chat_text_msg_handler J E p msg_data)
  unfolding chat_text_msg_handler
  chat_text_msg_handler-Built p ne msg_data = search (built, ne, deliver_text-Built) depth 14
