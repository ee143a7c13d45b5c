-- ===== src/Node/Tests/Delivery.antt =====
-- A text from one client to another.
use chat_server.Base.{◌≡◌, ◌++◌, refl, false, ◌∷◌, [], arith}
use chat_server.Base.Int.{pos}
use chat_server.Base.Text.{bytes}
use chat_server.Base.Decimal.{to_string}
use chat_server.Domain.{head_total_len, user_ip_key}
use chat_server.Frame.{Outcome, wire, send_node}
use chat_server.World.{World, Reading, Purpose, update, ◌>>◌}
use chat_server.World.Store.{with_reading}
use chat_server.Samples.{Outside, Doc, Docs, sample_json, sample_services, sample_world}
use chat_server.Session.{send_text}
use chat_server.Session.Receive.Frames.{feed}
use chat_server.Logic.Dispatch.{Turn, fun_callbacks, deal_turn}
use chat_server.Node.Request.{Request, response}
use chat_server.Node.Delivery.{text-delivered}

-- `{"fromuid": 7, "touid": 8, "text_array": [{"msgid": "m", "content": "hi"}]}`
abbrev pub text_doc : Doc
text_doc = Doc.obj (
    Docs.cons (bytes "fromuid") (Doc.num (pos 7)) (
      Docs.cons (bytes "touid") (Doc.num (pos 8)) (
        Docs.cons (bytes "text_array")
          (Doc.arr (
            Docs.cons []
              (Doc.obj (
                Docs.cons (bytes "msgid") (Doc.text (bytes "m"))
                  (Docs.cons (bytes "content") (Doc.text (bytes "hi")) Docs.nil)))
              Docs.nil))
          Docs.nil)))

abbrev pub text_request : Request (sample_json text_doc) (bytes "{}")
text_request = record {
  fromuid = pos 7;
  touid = pos 8;
  text_array = _;
  present = refl;
  has_from = refl;
  has_to = refl;
  has_texts = refl;
}

-- User 8 is on session 1, and session 0 waits for a head.
abbrev both : World Outside
both = record (with_reading 0 (Reading.reading Purpose.head [] head_total_len) sample_world) {
  outside = record sample_world.outside { texts = (bytes "uip_8", bytes "ChatServer2") ∷ [] };
  uid_to_session = (pos 8, 1) ∷ [];
}

text-delivered_example :
    let done =
      ((feed sample_services 0 (7 ∷ 219 ∷ []) ((0 ∷ 2 ∷ []) ∷ [])
            >> feed sample_services 0 (bytes "{}") [])
          >> deal_turn (fun_callbacks (sample_json text_doc) sample_services) false)
        both in
    (done.0 ≡ Outcome.ok Turn.goes_on)
    × (done.1.msg_que ≡ [])
    × (done.1.sessions 0 ≡ send_text (bytes "{}") response (both.sessions 0))
    × (done.1.sessions 1 ≡ send_text (bytes "{}") response (both.sessions 1))
    × ((done.1.sessions 1).writes ≡ [] ++ wire (send_node (bytes "{}") 2 response) ∷ [])
unfolding wire send_node update to_string user_ip_key
text-delivered_example =
    text-delivered (sample_json text_doc) sample_services 0 1 (bytes "{}") (7 ∷ 219 ∷ [])
      (bytes "{}") ((0 ∷ 2 ∷ []) ∷ []) [] text_request _ both (λ e. cc) (omega arith)
      (omega arith, tt) tt refl refl refl refl refl refl refl refl
