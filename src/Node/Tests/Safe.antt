-- ===== src/Node/Tests/Safe.antt =====
-- A node that a client connects to and sends on.
use chat_server.Base.{◌≢◌, refl, false, ◌∷◌, [], arith}
use chat_server.Base.Text.{bytes}
use chat_server.Frame.{Outcome, head_msg_len}
use chat_server.World.{World, update}
use chat_server.Samples.{Outside, sample_json, sample_services, sample_outside, login_doc}
use chat_server.Session.{handle_accept, async_read_head, async_read_full}
use chat_server.Session.Receive.{ReadEvent, read_event, on_bytes, set_reading}
use chat_server.Node.System
use chat_server.Node.System.{Reach, starts, later, new_world}
use chat_server.Node.Queue.{IsSafe, Reach-IsSafe}
use chat_server.Node.Faults.{Reach-Faultless}

-- A client connects, sends the head of a body of two bytes in two pieces, and then the body.
abbrev first : World Outside
first = (handle_accept 0 (bytes "a") false (new_world sample_outside)).1

abbrev second : World Outside
second = (read_event sample_services 0 (ReadEvent.received (3 ∷ 235 ∷ [])) first).1

first-Reach : Reach (sample_json login_doc) sample_services sample_outside first
unfolding System.event handle_accept async_read_head async_read_full
first-Reach = later (System.Event.accepts 0 (bytes "a") false) starts tt refl

second-Reach : Reach (sample_json login_doc) sample_services sample_outside second
unfolding System.event handle_accept async_read_head async_read_full read_event on_bytes set_reading
    update
second-Reach =
    later (System.Event.reads 0 (ReadEvent.received (3 ∷ 235 ∷ []))) first-Reach (omega arith) refl

Reach-IsSafe_example : IsSafe second
Reach-IsSafe_example =
    Reach-IsSafe (sample_json login_doc) sample_services sample_outside second second-Reach

Reach-Faultless_example :
    (System.event
      (sample_json login_doc)
      sample_services
      (System.Event.reads 0 (ReadEvent.received (0 ∷ 2 ∷ [])))
      second).0
    ≢ Outcome.fault
unfolding handle_accept async_read_head async_read_full read_event on_bytes set_reading update
    head_msg_len
Reach-Faultless_example =
    Reach-Faultless (sample_json login_doc) sample_services sample_outside second
      (System.Event.reads 0 (ReadEvent.received (0 ∷ 2 ∷ []))) second-Reach (omega arith) (λ e. cc)
