-- ===== src/Logic/Wakeup/Stop.antt =====
-- src/application/LogicSystem.cpp: the wake-up of the destructor can be lost.
use chat_server.Base.{◌≡◌, refl, none, some}
use chat_server.Logic.Wakeup.{sleeping, joining, System, deal_move, notify_move, stop_move}

-- Steps of the worker, of notifications and of the destructor; no message is posted any more.
pub data Ends : System → System → Type 0 where
  here : {s : System} → Ends s s
  deals_on : {s t u : System} → deal_move s ≡ some t → Ends t u → Ends s u
  notifies_on : {s t u : System} → notify_move s ≡ some t → Ends t u → Ends s u
  stops_on : {s t u : System} → stop_move s ≡ some t → Ends t u → Ends s u

-- Let the worker sleep after the destructor has notified it, with no notification to come. Then
-- nothing moves any more unless a message is posted: the join does not return.
pub Ends-stuck :
    (s t : System) → s.worker ≡ sleeping → s.stopper ≡ joining → s.owed ≡ 0 → Ends s t → t ≡ s
unfolding deal_move notify_move stop_move
Ends-stuck s _ w j o here = refl
Ends-stuck s t w j o (deals_on e run) = cc (e, asleep)
  where
    asleep : deal_move s ≡ none
    asleep = rw w refl
Ends-stuck s t w j o (notifies_on e run) = cc (e, nothing)
  where
    nothing : notify_move s ≡ none
    nothing = rw o refl
Ends-stuck s t w j o (stops_on e run) = cc (e, joins)
  where
    joins : stop_move s ≡ none
    joins = rw (j, w) refl
