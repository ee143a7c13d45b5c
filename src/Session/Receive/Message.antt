-- ===== src/Session/Receive/Message.antt =====
-- src/net/CSession.cpp: what a whole frame does to a session that waits for a head.
use chat_server.Base.{
  ℕ, ◌+◌, ◌≤◌, ◌<◌, ◌≡◌, ap, sym, ◌∙◌, false, List, [], ◌∷◌, ◌++◌, arith, length, ltb, All, take,
  drop, take-append_length,
}
use chat_server.Base.Int.{ℤ, pos, IsShort, gtb}
use chat_server.Base.Text.{Str}
use chat_server.Domain.{max_length, head_total_len}
use chat_server.Services.{Services}
use chat_server.Frame.{
  send_node, wire, zeros, head_msg_id, head_msg_len, recv_node, RecvNode, Outcome, message_text,
}
use chat_server.Frame.Copies.{store_body-whole}
use chat_server.Frame.Codec.{head-wire, length-head-wire}
use chat_server.World.{World, LogicNode, Purpose, Reading, skip, ◌>>◌}
use chat_server.World.Store.{
  update_self, with_reading, with_reading-with_reading, with_reading-same, store, bind-ok, catch-ok,
}
use chat_server.Session.{async_read_head, post_msg_to_que}
use chat_server.Session.Receive.{async_read_body, on_read, on_head, on_body}
use chat_server.Session.Receive.Frames.{joined, feed, feed-handed}

-- `std::make_shared<RecvNode>(msg_len, msg_id)`
abbrev pub empty_node : ℕ → ℤ → RecvNode
empty_node n msg_id = record {
  msg_id = msg_id;
  node = record { cur_len = pos 0; total_len = pos n; content = zeros (n + 1) };
}

-- The message that a body makes of the node that waits for it.
abbrev pub filled : ℕ → RecvNode → Str → LogicNode
filled p recv got = record {
  session = p;
  recv_node = record {
    msg_id = recv.msg_id;
    node = record {
      cur_len = pos (length got);
      total_len = recv.total_len;
      content = got ++ 0 ∷ [];
    };
  };
}

module _ {S : Type 0} (E : Services S) where
  on_head-accepts :
      (p n : ℕ) (got : Str) (msg_id : ℤ) (w : World S)
      → length got ≡ 4
      → head_msg_id got ≡ msg_id
      → head_msg_len got ≡ pos n
      → gtb msg_id max_length ≡ false
      → n ≤ max_length
      → on_head E p got w ≡ (
        Outcome.ok tt,
        with_reading p (Reading.reading (Purpose.body (empty_node n msg_id)) [] n) w,
      )
  unfolding on_head recv_node async_read_body
  on_head-accepts p n got msg_id w four id len known b = rw (full, id, len, known, short, on_head)
    where
      full : ltb (length got) head_total_len ≡ false
      full = ground arith

      short : gtb (pos n) max_length ≡ false
      short = ground arith

  on_body-posts :
      (p : ℕ) (recv : RecvNode) (got : Str) (want : ℕ) (w : World S)
      → length got ≡ want
      → recv.total_len ≡ pos (length got)
      → recv.content ≡ zeros (length got + 1)
      → on_body E p recv got want w ≡ (
        Outcome.ok tt,
        with_reading p
            (Reading.reading Purpose.head [] head_total_len)
            (record w { msg_que = w.msg_que ++ filled p recv got ∷ [] }),
      )
  unfolding on_body post_msg_to_que async_read_head
  on_body-posts p recv got want w e total blank =
      rw (full, store_body-whole recv got total blank, on_body)
    where
      full : ltb (length got) want ≡ false
      full = ground arith

  feed_head :
      (p n : ℕ) (h : Str) (hs : List Str) (msg_id : ℤ) (w : World S)
      → All (λ d. 0 < length d) hs
      → length (joined (h ∷ hs)) ≡ 4
      → head_msg_id (joined (h ∷ hs)) ≡ msg_id
      → head_msg_len (joined (h ∷ hs)) ≡ pos n
      → gtb msg_id max_length ≡ false
      → n ≤ max_length
      → (w.sessions p).reading ≡ Reading.reading Purpose.head [] head_total_len
      → feed E p h hs w ≡ (
        Outcome.ok tt,
        with_reading p (Reading.reading (Purpose.body (empty_node n msg_id)) [] n) w,
      )
  unfolding on_read
  feed_head p n h hs msg_id w ne four id len known b e =
      feed-handed E p h hs [] head_total_len Purpose.head w ne (omega arith) (omega arith) e
      ∙ catch-ok (on_head E p (joined (h ∷ hs))) skip (with_reading p Reading.idle w) (
          on_head-accepts p n (joined (h ∷ hs)) msg_id (with_reading p Reading.idle w) four id len
            known b)
      ∙ simp store

  feed_body :
      (p n : ℕ) (c : Str) (cs : List Str) (msg_id : ℤ) (w : World S)
      → All (λ d. 0 < length d) cs
      → length (joined (c ∷ cs)) ≡ n
      → n ≤ max_length
      → (w.sessions p).reading ≡ Reading.reading (Purpose.body (empty_node n msg_id)) [] n
      → feed E p c cs w ≡ (
        Outcome.ok tt,
        with_reading p (Reading.reading Purpose.head [] head_total_len) (record w {
          msg_que = w.msg_que ++ filled p (empty_node n msg_id) (joined (c ∷ cs)) ∷ [];
        }),
      )
  unfolding on_read
  feed_body p n c cs msg_id w ne len b e =
      feed-handed E p c cs [] n (Purpose.body recv) w ne (omega arith) b e
      ∙ catch-ok (on_body E p recv (joined (c ∷ cs)) n) skip (with_reading p Reading.idle w) (
          on_body-posts p recv (joined (c ∷ cs)) n (with_reading p Reading.idle w) len
            (ap pos (sym len)) (ap (λ k. zeros (k + 1)) (sym len)))
      ∙ simp store
    where
      recv : RecvNode
      recv = empty_node n msg_id

-- Reading on as before, the session is as it was, and the queue alone has changed.
settle :
    {S : Type 0} (p : ℕ) (r r' : Reading) (q : List LogicNode) (w : World S)
    → (w.sessions p).reading ≡ r'
    → with_reading p r' (record (with_reading p r w) { msg_que = q }) ≡ record w { msg_que = q }
settle {S} p r r' q w e =
    ap {A = World S} (λ v. record v { msg_que = q })
      (with_reading-with_reading p r r' w ∙ with_reading-same p r' w e)

-- The message that a frame with this id and body becomes.
abbrev pub posted : ℕ → ℤ → Str → LogicNode
posted p msg_id text = filled p (empty_node (length text) msg_id) text

module _ {S : Type 0} (E : Services S) where
  -- Let a session wait for a head, and let the frame of a text of at most MAX_LENGTH bytes with a
  -- message id of at most MAX_LENGTH come in, its head and its body each in any number of pieces,
  -- none but the first of a part empty. Then the code returns, exactly one message has joined the
  -- logic queue, behind the others, which carries the session, the id and the text, and the session
  -- waits for the next head.
  pub feed_frame :
      (p : ℕ) (msg_id : ℤ) (text h c : Str) (hs cs : List Str) (w : World S)
      → IsShort msg_id
      → gtb msg_id max_length ≡ false
      → length text ≤ max_length
      → All (λ d. 0 < length d) hs
      → All (λ d. 0 < length d) cs
      → joined (h ∷ hs) ≡ take 4 (wire (send_node text (length text) msg_id))
      → joined (c ∷ cs) ≡ drop 4 (wire (send_node text (length text) msg_id))
      → (w.sessions p).reading ≡ Reading.reading Purpose.head [] head_total_len
      → ((do feed E p h hs; feed E p c cs) w
          ≡ (Outcome.ok tt, record w { msg_que = w.msg_que ++ posted p msg_id text ∷ [] }))
        × (message_text (posted p msg_id text).recv_node ≡ text)
  feed_frame p msg_id text h c hs cs w short known fits nh nc eh ec e = (
    bind-ok (feed E p h hs) (λ _. feed E p c cs) w
          (feed_head E p (length text) h hs msg_id w nh (rw eh (length-head-wire text msg_id))
            (rw eh fields.0) (rw eh fields.1) known fits e)
        ∙ (feed_body E p (length text) c cs msg_id w' nc (rw (ec, fields.2)) fits (rw update_self)
            ∙ rw (ec ∙ fields.2) (
                ap (λ v. (Outcome.ok tt, v))
                  (settle p _ (Reading.reading Purpose.head [] head_total_len)
                    (w.msg_que ++ posted p msg_id text ∷ []) w e))),
    take-append_length text _,
  )
    where
      fields :
          (head_msg_id (take 4 (wire (send_node text (length text) msg_id))) ≡ msg_id)
          × (head_msg_len (take 4 (wire (send_node text (length text) msg_id))) ≡ pos (length text))
          × (drop 4 (wire (send_node text (length text) msg_id)) ≡ text)
      fields = head-wire text msg_id short fits

      w' : World S
      w' =
          with_reading p
            (Reading.reading (Purpose.body (empty_node (length text) msg_id)) [] (length text)) w
