-- ===== src/Frame/Tests.antt =====
-- Runs of the frame codec.
use chat_server.Base.{◌≡◌, refl, ◌∷◌}
use chat_server.Base.Int.{pos}
use chat_server.Base.Text.{bytes}
use chat_server.Frame.{send_node, wire}

login_frame : wire (send_node (bytes "hi") 2 (pos 2001)) ≡ 7 ∷ 209 ∷ 0 ∷ 2 ∷ bytes "hi"
unfolding wire send_node
login_frame = refl
