-- ===== src/Session/Tests.antt =====
-- Runs of a session.
use chat_server.Base.{none, ◌+◌, ◌≡◌, refl, arith, true, false, List, [], ◌∷◌, ◌++◌, length}
use chat_server.Base.Int.{pos}
use chat_server.Base.Text.{str_key, bytes, str_key}
use chat_server.Base.Dict.{find}
use chat_server.Domain.{head_total_len}
use chat_server.Frame.{Outcome, wire, send_node, message_text, head_msg_len, head_msg_id}
use chat_server.World.{World, Session, Purpose, Reading, new_session, set_session, update, ◌>>◌}
use chat_server.World.Store.{with_reading}
use chat_server.Samples.{Outside, sample_services, sample_world}
use chat_server.Session.{close}
use chat_server.Session.SendQueue.{frames, busy}
use chat_server.Session.Channel.{Event, run, all_taken, completions, run-frames, run-paced}
use chat_server.Session.Receive.{ReadEvent, read_event}
use chat_server.Session.Receive.Frames.{feed}
use chat_server.Session.Receive.Message.{posted, feed_frame}
use chat_server.Session.Receive.Lost.{read_event-lost}
use chat_server.Session.Receive.Faults.{events, wrong_length}

abbrev sample_session : Session
sample_session = new_session (bytes "s")

-- Two texts, the first written out before the second comes.
abbrev sample_events : List Event
sample_events =
    Event.sends (bytes "hi") (pos 2002) ∷ Event.completes ∷ Event.sends (bytes "ho") (pos 2004) ∷ []

run-frames_example :
    frames (run sample_events sample_session)
    ≡ frames sample_session ++ all_taken sample_events (length sample_session.send_que)
run-frames_example = run-frames sample_events sample_session

run-paced_example :
    length (run sample_events sample_session).writes + busy sample_session
    ≡ length sample_session.writes
      + completions sample_events (length sample_session.send_que)
      + busy (run sample_events sample_session)
run-paced_example = run-paced sample_events sample_session

-- The world whose session 0 waits for a head.
abbrev waiting : World Outside
waiting = with_reading 0 (Reading.reading Purpose.head [] head_total_len) sample_world

-- The head of a login comes in two pieces, and its body in one.
feed_frame_example :
    ((feed sample_services 0 (7 ∷ []) ((209 ∷ 0 ∷ 2 ∷ []) ∷ [])
          >> feed sample_services 0 (bytes "hi") [])
        waiting
      ≡ (Outcome.ok tt, record waiting { msg_que = posted 0 (pos 2001) (bytes "hi") ∷ [] }))
    × (message_text (posted 0 (pos 2001) (bytes "hi")).recv_node ≡ bytes "hi")
unfolding wire send_node update
feed_frame_example =
    feed_frame sample_services 0 (pos 2001) (bytes "hi") (7 ∷ []) (bytes "hi")
      ((209 ∷ 0 ∷ 2 ∷ []) ∷ []) [] waiting (omega arith) refl (omega arith) (omega arith, tt) tt
      refl refl refl

wrong_length_example :
    events sample_services 0
      (ReadEvent.received (7 ∷ 209 ∷ 8 ∷ 1 ∷ []) ∷ ReadEvent.failed ∷ [])
      waiting
    ≡ (Outcome.ok tt, record (with_reading 0 Reading.idle waiting) { server_sessions = [] })
unfolding head_msg_id head_msg_len update
wrong_length_example =
    wrong_length sample_services 0 (pos 2049) (7 ∷ 209 ∷ 8 ∷ 1 ∷ []) (ReadEvent.failed ∷ []) waiting
      refl refl refl refl refl

-- The waiting session after its client is gone.
abbrev gone_world : World Outside
gone_world =
    set_session 0 (record sample_session { socket_open = false; b_close = true })
      (with_reading 0 Reading.idle waiting)

read_event-lost_example :
    let r = read_event sample_services 0 ReadEvent.failed waiting in
    (r.0 ≡ Outcome.ok tt)
    × ((r.1.sessions 0).b_close ≡ true)
    × (find (r.1.sessions 0).session_id r.1.server_sessions ≡ none)
unfolding close update
read_event-lost_example =
    read_event-lost sample_services 0 head_total_len Purpose.head [] waiting gone_world refl refl
