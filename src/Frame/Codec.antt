-- ===== src/Frame/Codec.antt =====
-- src/net/MsgNode.cpp: the bytes of a frame.
use chat_server.Base.{
  ℕ, suc, ◌+◌, ◌≤◌, ◌≡◌, refl, ap, [], ◌∷◌, ◌++◌, take, drop, length, arith, take-append_length,
}
use chat_server.Base.Int.{ℤ, pos, negsuc, IsShort}
use chat_server.Base.Text.{Str}
use chat_server.Domain.{max_length, head_total_len}
use chat_server.Frame.{network_short, host_short, send_node, wire, head_msg_id, head_msg_len}

host_short-network_short : (z : ℤ) → IsShort z → host_short (network_short z) ≡ z
host_short-network_short (pos n) h = ground arith
host_short-network_short (negsuc n) h = ground arith

four_add : (n : ℕ) → head_total_len + n ≡ suc (suc (suc (suc n)))
four_add n = omega arith

take-length : (xs : Str) → take (length xs) xs ≡ xs
take-length [] = refl
take-length (x ∷ xs) = ap (◌∷◌ x) (take-length xs)

-- A frame is its head and then the body.
pub wire-send_node :
    (body : Str) (msg_id : ℤ)
    → wire (send_node body (length body) msg_id)
      ≡ network_short msg_id ++ (network_short (pos (length body)) ++ body)
unfolding wire send_node
wire-send_node body msg_id =
    rw (four_add (length body), take-length body)
      (ap (λ t. network_short msg_id ++ (network_short (pos (length body)) ++ t))
        (take-append_length body _))

-- The head of a frame gives back the id, if it is a `short`, and the length of a body of at most
-- 2048 bytes, and the body follows the four bytes of the head.
pub head-wire :
    (body : Str) (msg_id : ℤ)
    → IsShort msg_id
    → length body ≤ max_length
    → let frame = wire (send_node body (length body) msg_id) in
      (head_msg_id (take 4 frame) ≡ msg_id)
      × (head_msg_len (take 4 frame) ≡ pos (length body))
      × (drop 4 frame ≡ body)
unfolding head_msg_id head_msg_len
head-wire body msg_id h b = rw (wire-send_node body msg_id) (
  host_short-network_short msg_id h,
  host_short-network_short (pos (length body)) (omega arith),
  refl,
)

pub length-head-wire :
    (body : Str) (msg_id : ℤ) → length (take 4 (wire (send_node body (length body) msg_id))) ≡ 4
length-head-wire body msg_id = rw (wire-send_node body msg_id)
