-- ===== src/Session/Receive/Faults.antt =====
-- src/net/CSession.cpp: heads whose length field the code does not take for a frame's.
use chat_server.Base.{
  ℕ, zero, suc, ◌||◌, ◌≡◌, refl, true, false, arith, length, leb, ltb, List, [], ◌∷◌,
}
use chat_server.Base.Int.{ℤ, pos, negsuc, gtb, is_neg}
use chat_server.Base.Text.{Str, str_key}
use chat_server.Base.Dict.{erase}
use chat_server.Domain.{max_length, head_total_len}
use chat_server.Services.{Services}
use chat_server.Frame.{head_msg_id, head_msg_len, recv_node, msg_node, Outcome}
use chat_server.World.{World, Purpose, Reading, M, skip, catch, ◌>>◌}
use chat_server.World.Store.{update_self, with_reading}
use chat_server.Session.{clear_session}
use chat_server.Session.Receive.{
  ReadEvent, read_event, on_bytes, on_read, on_head, set_reading, on_error,
}

module _ {S : Type 0} (E : Services S) where
  -- The completion of a whole head runs the callback of the head on a session that reads no more.
  read_event-head :
      (p : ℕ) (got : Str) (w : World S)
      → length got ≡ 4
      → (w.sessions p).reading ≡ Reading.reading Purpose.head [] head_total_len
      → read_event E p (ReadEvent.received got) w
        ≡ catch (on_head E p got) skip (with_reading p Reading.idle w)
  unfolding read_event on_bytes on_read set_reading
  read_event-head p got w four e = rw (e, room, full)
    where
      room : ltb max_length (length got) ≡ false
      room = ground arith

      full : leb head_total_len (length got) ≡ true
      full = ground arith

  -- The events of the socket, one after another.
  abbrev pub events : ℕ → List ReadEvent → M S (Unit {0})
  events p [] = skip
  events p (ev ∷ evs) = read_event E p ev >> events p evs

  idle-events :
      (p : ℕ) (evs : List ReadEvent) (w : World S)
      → (w.sessions p).reading ≡ Reading.idle
      → events p evs w ≡ (Outcome.ok tt, w)
  unfolding read_event on_bytes on_error
  idle-events p [] w e = refl
  idle-events p (ReadEvent.received more ∷ evs) w e = rw e (idle-events p evs w e)
  idle-events p (ReadEvent.failed ∷ evs) w e = rw e (idle-events p evs w e)

  length_minus_one :
      (p : ℕ) (got : Str) (w : World S)
      → length got ≡ 4
      → gtb (head_msg_id got) max_length ≡ false
      → head_msg_len got ≡ negsuc 0
      → (w.sessions p).reading ≡ Reading.reading Purpose.head [] head_total_len
      → read_event E p (ReadEvent.received got) w ≡ (Outcome.fault, with_reading p Reading.idle w)
  unfolding on_head recv_node msg_node
  length_minus_one p got w four known len e = rw (read_event-head p got w four e, full, known, len)
    where
      full : ltb (length got) head_total_len ≡ false
      full = ground arith

  length_below_minus_one :
      (p n : ℕ) (got : Str) (evs : List ReadEvent) (w : World S)
      → length got ≡ 4
      → gtb (head_msg_id got) max_length ≡ false
      → head_msg_len got ≡ negsuc (suc n)
      → (w.sessions p).reading ≡ Reading.reading Purpose.head [] head_total_len
      → events p (ReadEvent.received got ∷ evs) w ≡ (Outcome.ok tt, with_reading p Reading.idle w)
  unfolding on_head recv_node msg_node
  length_below_minus_one p n got evs w four known len e =
      rw (read_event-head p got w four e, full, known, len)
        (idle-events p evs (with_reading p Reading.idle w) (rw update_self))
    where
      full : ltb (length got) head_total_len ≡ false
      full = ground arith

  long_length :
      (p : ℕ) (got : Str) (evs : List ReadEvent) (w : World S)
      → length got ≡ 4
      → gtb (head_msg_id got) max_length ≡ false
      → gtb (head_msg_len got) max_length ≡ true
      → (w.sessions p).reading ≡ Reading.reading Purpose.head [] head_total_len
      → events p (ReadEvent.received got ∷ evs) w ≡ (
        Outcome.ok tt,
        record (with_reading p Reading.idle w) {
          server_sessions = erase (w.sessions p).session_id w.server_sessions;
        },
      )
  unfolding on_head clear_session
  long_length p got evs w four known len e =
      rw (read_event-head p got w four e, full, known, len, update_self)
        (idle-events p evs _ (rw update_self))
    where
      full : ltb (length got) head_total_len ≡ false
      full = ground arith

  -- What a head with such a length comes to.
  abbrev pub after_length : ℤ → ℕ → World S → Outcome (Unit {0}) × World S
  after_length (negsuc zero) p w = (Outcome.fault, with_reading p Reading.idle w)
  after_length (negsuc (suc n)) p w = (Outcome.ok tt, with_reading p Reading.idle w)
  after_length (pos n) p w = (
    Outcome.ok tt,
    record (with_reading p Reading.idle w) {
      server_sessions = erase (w.sessions p).session_id w.server_sessions;
    },
  )

  -- Let a session wait for a head, and let four bytes come in with an id within MAX_LENGTH and a
  -- length that is negative or above MAX_LENGTH, and any events of the socket after them. If the
  -- length is -1, then the node for the body is built out of bounds. Otherwise the code returns each
  -- time, the session reads no more, and it is not closed: its user stays logged in. If the length is
  -- above MAX_LENGTH, then the server forgets the session; if it is below -1, then nothing else
  -- changes, and the session stays registered.
  pub wrong_length :
      (p : ℕ) (len : ℤ) (got : Str) (evs : List ReadEvent) (w : World S)
      → length got ≡ 4
      → gtb (head_msg_id got) max_length ≡ false
      → head_msg_len got ≡ len
      → is_neg len || gtb len max_length ≡ true
      → (w.sessions p).reading ≡ Reading.reading Purpose.head [] head_total_len
      → events p (ReadEvent.received got ∷ evs) w ≡ after_length len p w
  wrong_length p (negsuc zero) got evs w four known len wrong e =
      rw (length_minus_one p got w four known len e)
  wrong_length p (negsuc (suc n)) got evs w four known len wrong e =
      length_below_minus_one p n got evs w four known len e
  wrong_length p (pos n) got evs w four known len wrong e =
      long_length p got evs w four known (rw len wrong) e
