-- ===== src/Session/Receive.antt =====
-- src/net/CSession.cpp: the callbacks of the reads, which alternate between the head and the body
-- of a frame. Each completed `async_read_some` is one piece of code.
pub mod Frames
pub mod Message
pub mod Faults
pub mod Lost
pub mod Touches
pub mod Faultless
pub mod Whole
use chat_server.Base.{
  ℕ, zero, suc, ◌+◌, ◌-◌, ◌^◌, Bool, true, false, not, ◌||◌, List, [], ◌∷◌, ◌++◌, leb, ltb, ◌==◌,
  drop, length, Option, none, some, if◌then◌else◌, take,
}
use chat_server.Base.Int.{ℤ, pos, negsuc, is_pos, gtb}
use chat_server.Base.Text.{Str, is_empty, str_key}
use chat_server.Base.Dict.{assign, erase}
use chat_server.Base.Decimal.{to_string, stoi}
use chat_server.Domain.{max_length, max_sendque, head_total_len, login_count}
use chat_server.Services.{Services}
use chat_server.Frame.{
  MsgNode, RecvNode, Outcome, send_node, wire, recv_node, head_msg_id, head_msg_len, store_body,
  copy_to,
}
use chat_server.World.{
  World, Session, LogicNode, Purpose, Reading, M, pure, skip, or_throw, outcome, call, gets, modify,
  when, catch, set_session, new_session, ◌>>=◌, ◌>>◌,
}
use chat_server.UserMgr.{remove_user_session}
use chat_server.Session.{
  async_read_full, async_read_head, close_and_clear, clear_session, post_msg_to_que,
}

-- How a read of the socket completes: with some bytes, or with an error.
pub data ReadEvent : Type 0 where
  received : Str → ReadEvent
  failed : ReadEvent

module _ {S : Type 0} where
  -- The `int` length becomes a `std::size_t`.
  unfoldable pub async_read_body : ℕ → RecvNode → ℤ → M S (Unit {0})
  unfolding async_read_full
  async_read_body p node (pos n) = async_read_full p (Purpose.body node) n
  async_read_body p node (negsuc n) = async_read_full p (Purpose.body node) (2 ^ 64 - 1 - n)

  unfoldable pub set_reading : ℕ → Reading → M S (Unit {0})
  set_reading p r = modify (λ w. set_session p (record (w.sessions p) { reading = r }) w)

module _ {S : Type 0} (E : Services S) where
  -- The callback of `AsyncReadHead` without an error, on the bytes read.
  pub on_head : ℕ → Str → M S (Unit {0})
  unfolding close_and_clear clear_session async_read_body recv_node head_msg_id head_msg_len
  on_head p got =
      if ltb (length got) head_total_len
      then close_and_clear E p
      else if gtb (head_msg_id got) max_length
      then clear_session p
      else if gtb (head_msg_len got) max_length
      then clear_session p
      else do
        node ← outcome (recv_node (head_msg_len got) (head_msg_id got))
        async_read_body p node (head_msg_len got)

  -- The callback of `AsyncReadBody` without an error.
  pub on_body : ℕ → RecvNode → Str → ℕ → M S (Unit {0})
  unfolding close_and_clear post_msg_to_que async_read_head store_body
  on_body p recv got want = if ltb (length got) want then close_and_clear E p else do
    content ← outcome (store_body recv got)
    post_msg_to_que (record {
      session = p;
      recv_node = record {
        msg_id = recv.msg_id;
        node = record { cur_len = pos (length got); total_len = recv.total_len; content = content };
      };
    })
    async_read_head p

  -- The callback of the read, whatever it was for.
  pub on_read : ℕ → Purpose → Str → ℕ → M S (Unit {0})
  unfolding on_head on_body
  on_read p Purpose.head got want = on_head p got
  on_read p (Purpose.body recv) got want = on_body p recv got want

  -- The callback of `async_read_some` in `asyncReadLen`: it stores what came behind the bytes so
  -- far, and hands over or reads on. `_data` has MAX_LENGTH bytes.
  unfoldable pub on_bytes : ℕ → Str → Reading → M S (Unit {0})
  unfolding on_read set_reading
  on_bytes p more Reading.idle = skip
  on_bytes p more (Reading.reading purpose got want) =
      if ltb max_length (length (got ++ more))
      then outcome Outcome.fault
      else if leb want (length (got ++ more))
      then (do set_reading p Reading.idle; catch (on_read p purpose (got ++ more) want) skip)
      else set_reading p (Reading.reading purpose (got ++ more) want)

  on_error : ℕ → Reading → M S (Unit {0})
  unfolding close_and_clear set_reading
  on_error p Reading.idle = skip
  on_error p (Reading.reading purpose got want) = do
    set_reading p Reading.idle
    catch (close_and_clear E p) skip

  -- What a pending read of the session completes with.
  unfoldable pub read_event : ℕ → ReadEvent → M S (Unit {0})
  unfolding on_bytes on_error
  read_event p (received more) = do s ← gets (λ w. w.sessions p); on_bytes p more s.reading
  read_event p failed = do s ← gets (λ w. w.sessions p); on_error p s.reading
