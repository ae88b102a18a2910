-- ===== src/WebUi/Roles/Exclusive.antt =====
-- internal/webui: an application is a sender or a receiver, never both.
use go_silver_core.Prelude.{◌≡◌, Bool, true, false, not, ◌&&◌, ◌||◌}
use go_silver_core.WebUi.Roles.{
  App, is_sender, is_receiver, Stage, free, publish, put_source, stop_discovery, await_loop,
  put_discovery, put_agent, then_discover, Loop, dead, Closing, wait_loop, finished,
}
use go_silver_core.WebUi.Roles.Steps.{is_waiting}

abbrev pub is_dead : Loop → Bool
is_dead dead = true
is_dead _ = false

-- What the operation relies on between two of its parts: `sends` and `receives` say whether the mode
-- is the sender's and the receiver's, `off` that the discovery is off, `gone` that the loop has ended.
abbrev Relies : Stage → Bool → Bool → Bool → Bool → Type 0
Relies (publish listen k) sends receives off gone = receives ≡ false
Relies (put_source path listen) sends receives off gone = sends ≡ true
Relies (stop_discovery (then_discover c)) sends receives off gone = sends ≡ false
Relies (await_loop (then_discover c)) sends receives off gone = (sends ≡ false) × (off ≡ true)
Relies (await_loop k) sends receives off gone = off ≡ true
Relies (put_discovery c) sends receives off gone = (sends ≡ false) × (off ≡ true) × (gone ≡ true)
Relies (put_agent c addr) sends receives off gone = sends ≡ false
Relies _ sends receives off gone = Unit {0}

-- The loop outlives its discovery only while someone waits for it.
abbrev may_outlive : Stage → Closing → Bool
may_outlive s wait_loop = true
may_outlive s _ = is_waiting s

-- Behind its wait for the operation, `Close` is alone with the loop.
abbrev is_alone : Closing → Bool
is_alone wait_loop = true
is_alone finished = true
is_alone _ = false

abbrev pub is_free : Stage → Bool
is_free free = true
is_free _ = false

abbrev pub is_finished : Closing → Bool
is_finished finished = true
is_finished _ = false

record Inv (a : App) : Type 0 where
  sends : (a.hub || a.source || is_sender a.mode) ≡ is_sender a.mode
  receives :
      (a.agent || a.discovery || not (is_dead a.loop) || is_receiver a.mode) ≡ is_receiver a.mode
  relies : Relies a.stage (is_sender a.mode) (is_receiver a.mode) (not a.discovery) (is_dead a.loop)
  loop_kept : (is_dead a.loop || a.discovery || may_outlive a.stage a.closing) ≡ true
  alone : (not (is_alone a.closing) || is_free a.stage && not a.discovery) ≡ true
  over :
      (not (is_finished a.closing) || not a.hub && not a.source && not a.agent && is_dead a.loop)
      ≡ true

-- Does the application serve as a sender, or work as a receiver?
abbrev pub sends_now : App → Bool
sends_now a = a.hub || a.source

abbrev pub receives_now : App → Bool
receives_now a = a.agent || a.discovery || not (is_dead a.loop)
