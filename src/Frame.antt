-- ===== src/Frame.antt =====
-- src/net/MsgNode.cpp: the buffers of one message. A frame is a 2-byte message id, a 2-byte body
-- length, both big-endian, and the body.
pub mod Codec
pub mod Copies
mod Tests
use chat_server.Base.{
  ℕ, suc, ◌+◌, ◌-◌, ◌*◌, ◌/◌, ◌%◌, ◌^◌, zero, List, [], ◌∷◌, ◌++◌, take, drop, length, ltb,
  if◌then◌else◌, Option, none, some,
}
use chat_server.Base.Int.{ℤ, pos, negsuc, short_bits, short_of_bits}
use chat_server.Base.Text.{Str}
use chat_server.Domain.{head_total_len}

-- What a call can do besides returning: throw a C++ exception, or write outside its memory.
pub data Outcome (A : Type 0) : Type 0 where
  ok : A → Outcome A
  throws : Outcome A
  fault : Outcome A

pub record MsgNode : Type 0 where
  pub cur_len : ℤ
  pub total_len : ℤ
  -- `_data`, all `total_len + 1` bytes of it.
  pub content : Str

abbrev pub zeros : ℕ → Str
zeros zero = []
zeros (suc n) = 0 ∷ zeros n

-- The buffer after `memcpy(content + at, new_bytes, n)` inside it.
abbrev pub copy_to : ℕ → Str → Str → Str
copy_to at new_bytes content =
    take at content ++ (new_bytes ++ drop (at + length new_bytes) content)

-- `memcpy` into a buffer that holds `content`, at an offset.
unfoldable pub memcpy : ℕ → Str → Str → Outcome Str
memcpy at new_bytes content =
    if ltb (length content) (at + length new_bytes)
    then fault
    else ok (copy_to at new_bytes content)

-- `new char[total_len + 1]()` throws below -1; at -1 the array is empty, and the terminator is
-- written in front of it.
unfoldable pub msg_node : ℤ → Outcome MsgNode
msg_node (pos n) = ok (record { cur_len = pos 0; total_len = pos n; content = zeros (n + 1) })
msg_node (negsuc zero) = fault
msg_node (negsuc (suc n)) = throws

pub record RecvNode : Type 0 where
  pub msg_id : ℤ
  pub node : MsgNode
  pub open node use *

unfoldable pub recv_node : ℤ → ℤ → Outcome RecvNode
unfolding msg_node
recv_node body_len msg_id = elim (msg_node body_len) [
  | ok node ↦ ok (record { msg_id = msg_id; node = node })
  | throws ↦ throws
  | fault ↦ fault
]

-- The two bytes that `memcpy` takes from a `short` in network byte order, and back.
abbrev pub network_short : ℤ → Str
network_short z = short_bits z / 256 ∷ short_bits z % 256 ∷ []

abbrev pub host_short : Str → ℤ
host_short (hi ∷ lo ∷ rest) = short_of_bits (hi * 256 + lo)
host_short _ = pos 0

-- What `SendNode(body, body_len, msg_id)` holds where all its copies fit; `send` calls it with a
-- positive length within MAX_LENGTH.
unfoldable pub send_node : Str → ℕ → ℤ → MsgNode
send_node body body_len msg_id = record {
  cur_len = pos (head_total_len + body_len);
  total_len = pos (head_total_len + body_len);
  content = copy_to 4 (take body_len body) (
      copy_to 2 (network_short (pos body_len))
        (copy_to 0 (network_short msg_id) (zeros (head_total_len + body_len + 1))));
}

-- How a copy goes on from the one before.
infixl 5 ◌>>=◌
abbrev ◌>>=◌ : {A B : Type 0} → Outcome A → (A → Outcome B) → Outcome B
ok a >>= k = k a
throws >>= k = throws
fault >>= k = fault

-- The constructor, a copy at a time, each of which can run over the buffer.
unfoldable pub make_send_node : Str → ℕ → ℤ → Outcome MsgNode
unfolding memcpy
make_send_node body body_len msg_id = do
  with_id ← memcpy 0 (network_short msg_id) (zeros (head_total_len + body_len + 1))
  with_len ← memcpy 2 (network_short (pos body_len)) with_id
  whole ← memcpy 4 (take body_len body) with_len
  ok (record {
    cur_len = pos (head_total_len + body_len);
    total_len = pos (head_total_len + body_len);
    content = whole;
  })

-- The body of a message that came in, and the null byte that is set behind it.
abbrev terminate : ℤ → Str → Outcome Str
terminate (pos n) content = memcpy n (0 ∷ []) content
terminate (negsuc n) content = fault

unfoldable pub store_body : RecvNode → Str → Outcome Str
unfolding memcpy
store_body recv got = do content ← memcpy 0 got recv.content; terminate recv.total_len content

-- `boost::asio::buffer(node->getData(), node->getTotalLen())`
unfoldable pub wire : MsgNode → Str
wire n = elim n.total_len [ pos k ↦ take k n.content | negsuc k ↦ [] ]

-- The two fields of a head, as `AsyncReadHead` takes them out of its four bytes.
unfoldable pub head_msg_id : Str → ℤ
head_msg_id head = host_short (take 2 head)

unfoldable pub head_msg_len : Str → ℤ
head_msg_len head = host_short (take 2 (drop 2 head))

-- `std::string(node->getData(), node->getCurLen())`
abbrev pub message_text : RecvNode → Str
message_text n = elim n.cur_len [ pos k ↦ take k n.content | negsuc k ↦ [] ]
