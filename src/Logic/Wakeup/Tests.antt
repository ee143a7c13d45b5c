-- ===== src/Logic/Wakeup/Tests.antt =====
-- The destructor runs while the worker is between its test and its wait.
use chat_server.Base.{◌≡◌, refl, true}
use chat_server.Logic.Wakeup.{
  sleeping, joining, System, start, deal_move, post_move, stop_move, deals, posts, stops, Reach,
  begins, goes,
}
use chat_server.Logic.Wakeup.Progress.{Alone, Reach-served}
use chat_server.Logic.Wakeup.Stop.{Ends, Ends-stuck}

abbrev lost : System
lost = record { worker = sleeping; que = 0; owed = 0; b_stop = true; stopper = joining }

lost-Reach : Reach lost
unfolding deal_move stop_move
lost-Reach =
    goes (goes (goes (goes (goes begins (deals refl)) (deals refl)) (stops refl)) (stops refl))
      (deals refl)

lost-stuck : (t : System) → Ends lost t → t ≡ lost
lost-stuck t = Ends-stuck lost t refl refl refl

-- Two messages are posted while the worker sleeps, and only the first is notified of.
abbrev two_posted : System
two_posted = record start { worker = sleeping; que = 2; owed = 1 }

two_posted-Reach : Reach two_posted
unfolding deal_move post_move
two_posted-Reach =
    goes (goes (goes (goes (goes begins (deals refl)) (deals refl)) (deals refl)) (posts refl))
      (posts refl)

Reach-served_example : (t : System) × Alone two_posted t × (t.que ≡ 0)
Reach-served_example = Reach-served two_posted two_posted-Reach (λ e. cc)
