-- ===== src/Frame/Copies.antt =====
-- src/net/MsgNode.cpp, src/net/CSession.cpp: the copies into the buffers of messages stay inside
-- them.
use chat_server.Base.{
  ℕ, zero, suc, ◌+◌, ◌-◌, ◌≤◌, ◌≡◌, refl, ap, ◌∙◌, false, List, [], ◌∷◌, ◌++◌, length, take, drop,
  ltb, arith, length-append, take-append_length,
}
use chat_server.Base.Int.{ℤ, pos}
use chat_server.Base.Text.{Str}
use chat_server.Domain.{head_total_len}
use chat_server.Frame.{
  Outcome, RecvNode, copy_to, zeros, memcpy, network_short, send_node, make_send_node, store_body,
}

pub length-drop : {A : Type 0} (n : ℕ) (xs : List A) → length (drop n xs) ≡ length xs - n
length-drop zero xs = omega arith
length-drop (suc n) [] = omega arith
length-drop (suc n) (x ∷ xs) = omega (arith, length-drop n xs)

pub length-take : (n : ℕ) (xs : Str) → n ≤ length xs → length (take n xs) ≡ n
length-take zero xs h = refl
length-take (suc n) [] h = omega arith
length-take (suc n) (x ∷ xs) h = omega (arith, length-take n xs (omega arith))

pub length-zeros : (n : ℕ) → length (zeros n) ≡ n
length-zeros zero = refl
length-zeros (suc n) = omega (arith, length-zeros n)

pub length-copy_to :
    (at : ℕ) (new_bytes content : Str)
    → at + length new_bytes ≤ length content
    → length (copy_to at new_bytes content) ≡ length content
length-copy_to at new_bytes content h = omega (
  arith,
  length-append (take at content) (new_bytes ++ drop (at + length new_bytes) content),
  length-append new_bytes (drop (at + length new_bytes) content),
  length-take at content (omega arith),
  length-drop (at + length new_bytes) content,
)

memcpy-inside :
    (at : ℕ) (new_bytes content : Str)
    → at + length new_bytes ≤ length content
    → memcpy at new_bytes content ≡ Outcome.ok (copy_to at new_bytes content)
unfolding memcpy
memcpy-inside at new_bytes content h = rw inside refl
  where
    inside : ltb (length content) (at + length new_bytes) ≡ false
    inside = ground arith

-- The buffer of a node that is sent, after its first copies.
abbrev size_of : ℕ → ℕ
size_of body_len = head_total_len + body_len + 1

abbrev with_id : ℕ → ℤ → Str
with_id n msg_id = copy_to 0 (network_short msg_id) (zeros (size_of n))

abbrev pub with_len : ℕ → ℤ → Str
with_len n msg_id = copy_to 2 (network_short (pos n)) (with_id n msg_id)

length-with_id : (n : ℕ) (msg_id : ℤ) → length (with_id n msg_id) ≡ size_of n
length-with_id n msg_id =
    length-copy_to 0 (network_short msg_id) (zeros (size_of n))
      (omega (arith, length-zeros (size_of n)))
    ∙ length-zeros (size_of n)

pub length-with_len : (n : ℕ) (msg_id : ℤ) → length (with_len n msg_id) ≡ size_of n
length-with_len n msg_id =
    length-copy_to 2 (network_short (pos n)) (with_id n msg_id)
      (omega (arith, length-with_id n msg_id))
    ∙ length-with_id n msg_id

-- The constructor of a node for a whole text runs over nothing.
pub make_send_node-whole :
    (msg : Str) (msg_id : ℤ)
    → make_send_node msg (length msg) msg_id ≡ Outcome.ok (send_node msg (length msg) msg_id)
unfolding make_send_node send_node
make_send_node-whole msg msg_id =
    rw
      (
        memcpy-inside 0 (network_short msg_id) (zeros (size_of n))
            (omega (arith, length-zeros (size_of n))),
        memcpy-inside 2 (network_short (pos n)) (with_id n msg_id)
            (omega (arith, length-with_id n msg_id)),
        memcpy-inside 4 (take n msg) (with_len n msg_id)
            (omega (arith, length-with_len n msg_id, length-take n msg (omega arith))),
      )
      refl
  where
    n : ℕ
    n = length msg

-- Behind what was read into it, a node for a body has its terminator.
last_zero : (n : ℕ) → drop n (zeros (n + 1)) ≡ 0 ∷ []
last_zero zero = refl
last_zero (suc n) = rw next (last_zero n)
  where
    next : suc n + 1 ≡ suc (n + 1)
    next = omega arith

nothing_left : (xs : Str) → drop (length xs + 1) (xs ++ 0 ∷ []) ≡ []
nothing_left [] = refl
nothing_left (x ∷ xs) = rw next (nothing_left xs)
  where
    next : suc (length xs) + 1 ≡ suc (length xs + 1)
    next = omega arith

copied_body : (got : Str) → copy_to 0 got (zeros (length got + 1)) ≡ got ++ 0 ∷ []
copied_body got = rw start (ap (λ rest. got ++ rest) (last_zero (length got)))
  where
    start : 0 + length got ≡ length got
    start = omega arith

terminated_body : (got : Str) → copy_to (length got) (0 ∷ []) (got ++ 0 ∷ []) ≡ got ++ 0 ∷ []
terminated_body got =
    rw (nothing_left got) (ap (λ front. front ++ 0 ∷ []) (take-append_length got (0 ∷ [])))

-- A body as long as its node, new from its constructor, fills it up to the terminator.
pub store_body-whole :
    (recv : RecvNode) (got : Str)
    → recv.total_len ≡ pos (length got)
    → recv.content ≡ zeros (length got + 1)
    → store_body recv got ≡ Outcome.ok (got ++ 0 ∷ [])
unfolding store_body
store_body-whole recv got total blank =
    rw
      (
        total,
        blank,
        memcpy-inside 0 got (zeros (length got + 1)) (omega (arith, length-zeros (length got + 1))),
        copied_body got,
        memcpy-inside (length got) (0 ∷ []) (got ++ 0 ∷ [])
            (omega (arith, length-append got (0 ∷ []))),
        terminated_body got,
      )
      refl
